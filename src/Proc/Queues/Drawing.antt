-- ===== src/Proc/Queues/Drawing.antt =====
-- The drawing among the picked jobs, and the whole shortest job first choice.
use ut_os.Base.{
  ℕ, ◌^◌, subst, ◌≤◌, ◌<◌, ◌≡◌, refl, sym, ◌∙◌, inl, inr, Bool-cases, true, false, Option, none,
  some, List, [], ◌∷◌, length, lt_int, arith,
}
use ut_os.Proc.{Proc}
use ut_os.Proc.Queues.{is_ready, billion, rand, next_seed, sjf_choose, sjf_scheduler}
use ut_os.Proc.Queues.Jobs.{job, HasBounds, first, All, all_nil, all_cons}
use ut_os.Proc.Queues.Rounds.{IsFound, IsPicked, sjf_rounds-IsPicked}

-- What holds of all the picks, and of the last one before them, holds of the one drawn.
sjf_choose-All :
    {P : ℕ → Type 0} (ticks : ℕ) (ps : List Proc) (picked : List ℕ) (last : Option ℕ) (seed : ℕ)
    → ((k : ℕ) → last ≡ some k → P k)
    → All P picked
    → (k : ℕ) → (sjf_choose ticks ps picked last seed).0 ≡ some k
    → P k
unfolding sjf_choose
sjf_choose-All ticks ps [] last seed h a k e = h k e
sjf_choose-All {P} ticks ps (i ∷ is) last seed h (all_cons b a) k e =
    let one : (j : ℕ) → some i ≡ some j → P j = λ j q. subst P (ground (arith, q)) b in
    elim (Bool-cases (lt_int (rand seed) (job ps i).confidence)) [
      | inl l ↦ one k (rw l at e)
      | inr l ↦ sjf_choose-All ticks ps is (some i) (next_seed ticks seed) one a k (rw l at e)
    ]

-- Something is drawn from picks that are not empty.
sjf_choose-none :
    (ticks : ℕ) (ps : List Proc) (picked : List ℕ) (last : Option ℕ) (seed : ℕ)
    → (sjf_choose ticks ps picked last seed).0 ≡ none
    → (first picked ≡ none) × (last ≡ none)
unfolding sjf_choose
sjf_choose-none ticks ps [] last seed e = (refl, e)
sjf_choose-none ticks ps (i ∷ is) last seed e =
    elim (Bool-cases (lt_int (rand seed) (job ps i).confidence)) [
      | inl l ↦ absurd (cc (rw l at e))
      | inr l ↦
          absurd (cc (sjf_choose-none ticks ps is (some i) (next_seed ticks seed) (rw l at e)).1)
    ]

-- The first pick is drawn if its confidence is at least 100.
sjf_choose-first :
    (ticks : ℕ) (ps : List Proc) (picked : List ℕ) (last : Option ℕ) (seed h : ℕ)
    → first picked ≡ some h
    → 100 ≤ (job ps h).confidence
    → (job ps h).confidence < 2 ^ 31
    → (sjf_choose ticks ps picked last seed).0 ≡ some h
unfolding sjf_choose
sjf_choose-first ticks ps [] last seed h e c d = absurd (cc e)
sjf_choose-first ticks ps (i ∷ is) last seed h e c d = ground arith

module _ (ps : List Proc) where
  -- What the choice promises of the slot `c` it returns.
  pub record IsShortest (c : Option ℕ) : Type 0 where
    pub ready : (k : ℕ) → c ≡ some k → (k < length ps) × (is_ready 1 (job ps k) ≡ true)
    pub complete : c ≡ none → (j : ℕ) → j < length ps → is_ready 1 (job ps j) ≡ false

  -- Every ready process of the queue has confidence 100 or more.
  abbrev pub IsSure : Type 0
  IsSure =
      (j : ℕ)
      → j < length ps
      → is_ready 1 (job ps j) ≡ true
      → (100 ≤ (job ps j).confidence) × ((job ps j).confidence < 2 ^ 31)

  -- No ready process has a smaller burst time than that of slot `k`.
  abbrev pub IsLeast : ℕ → Type 0
  IsLeast k =
      (j : ℕ)
      → j < length ps
      → is_ready 1 (job ps j) ≡ true
      → (job ps k).burst_time ≤ (job ps j).burst_time

  sjf_choose-least :
      (ticks : ℕ) (picked : List ℕ) (seed : ℕ)
      → All (λ k. (k < length ps) × (is_ready 1 (job ps k) ≡ true)) picked
      → ((j : ℕ)
          → j < length ps
          → is_ready 1 (job ps j) ≡ true
          → (100 ≤ (job ps j).confidence) × ((job ps j).confidence < 2 ^ 31))
      → (k : ℕ) → (sjf_choose ticks ps picked none seed).0 ≡ some k
      → first picked ≡ some k
  unfolding sjf_choose
  sjf_choose-least ticks [] seed a sure k e = absurd (cc e)
  sjf_choose-least ticks (i ∷ is) seed (all_cons w a) sure k e =
      let c = sure i w.0 w.1 in
      sym (sjf_choose-first ticks ps (i ∷ is) none seed i refl c.0 c.1) ∙ e

  sjf_choose-IsShortest :
      (ticks : ℕ) (picked : List ℕ) (seed : ℕ)
      → (small : HasBounds ps) → IsPicked ps small picked
      → IsShortest (sjf_choose ticks ps picked none seed).0
  sjf_choose-IsShortest ticks picked seed small p = record {
    ready = sjf_choose-All ticks ps picked none seed (λ k e. absurd (cc e)) p.jobs;
    complete = λ e. p.none_left (sjf_choose-none ticks ps picked none seed e).0;
  }

  start-IsFound : IsFound ps 0 []
  start-IsFound = record {
    jobs = all_nil;
    best = λ h e. absurd (cc e);
    rest = λ e j lt rd. omega arith;
  }

  -- With all burst times of the queue from 0 (not negative) to below 1e9, the rounds end within 1e9 of
  -- them, and the choice is a ready process of queue 1 and finds nothing only if there is none.
  pub sjf_scheduler_lem :
      (fuel ticks seed : ℕ)
      → billion < fuel
      → HasBounds ps
      → (c : Option ℕ) × (seed' : ℕ) × (sjf_scheduler fuel ticks ps seed ≡ some (c, seed'))
        × IsShortest c
  unfolding sjf_scheduler
  sjf_scheduler_lem fuel ticks seed f b =
      let (picked, e, p) =
        sjf_rounds-IsPicked ps b fuel 0 [] (omega arith) (omega arith) start-IsFound in
      let r = sjf_choose ticks ps picked none seed in
      (r.0, r.1, rw (e, sjf_scheduler) refl, sjf_choose-IsShortest ticks picked seed b p)

  -- If, besides, every ready process of queue 1 has confidence 100 or more, the choice ends and is one
  -- with the least burst time of them.
  pub sjf_scheduler-IsLeast :
      (fuel ticks seed : ℕ)
      → billion < fuel
      → HasBounds ps
      → IsSure
      → (c : Option ℕ) × (seed' : ℕ) × (sjf_scheduler fuel ticks ps seed ≡ some (c, seed'))
        × ((k : ℕ) → c ≡ some k → IsLeast k)
  unfolding sjf_scheduler
  sjf_scheduler-IsLeast fuel ticks seed f b sure =
      let (picked, e, p) =
        sjf_rounds-IsPicked ps b fuel 0 [] (omega arith) (omega arith) start-IsFound in
      let r = sjf_choose ticks ps picked none seed in
      (
        r.0,
        r.1,
        rw (e, sjf_scheduler) refl,
        λ k q. p.best k (sjf_choose-least ticks picked seed p.jobs sure k q),
      )
