-- ===== src/Proc/Queues/Jobs.antt =====
-- One round of the shortest job first choice.
use ut_os.Base.{
  ℕ, suc, ◌+◌, ◌≤◌, ◌<◌, ◌≡◌, ◌≢◌, refl, ◌∙◌, inl, inr, Bool-cases, ℕ-cases, true, ◌==◌, Option,
  none, some, List, [], ◌∷◌, ◌++◌, get_or, length, lt_int, arith,
}
use ut_os.Proc.{Proc, blank_proc}
use ut_os.Proc.Queues.{is_ready, billion, Round, consider, sjf_round}

abbrev pub job : List Proc → ℕ → Proc
job ps j = get_or ps j blank_proc

-- Every ready process has a burst time below 1e9.
abbrev pub HasBounds : List Proc → Type 0
HasBounds ps =
    (j : ℕ) → j < length ps → is_ready 1 (job ps j) ≡ true → (job ps j).burst_time < billion

abbrev pub first : List ℕ → Option ℕ
first [] = none
first (x ∷ xs) = some x

pub data All (P : ℕ → Type 0) : List ℕ → Type 0 where
  all_nil : All P []
  all_cons : {x : ℕ} {xs : List ℕ} → P x → All P xs → All P (x ∷ xs)

All-snoc : {P : ℕ → Type 0} (xs : List ℕ) (x : ℕ) → All P xs → P x → All P (xs ++ (x ∷ []))
All-snoc [] x a h = all_cons h all_nil
All-snoc (y ∷ ys) x (all_cons g a) h = all_cons g (All-snoc ys x a h)

-- What one round from `r` to `r'` over the slots `ps` has done.
pub record IsScanned (min : ℕ) (ps : List Proc) (r r' : Round) : Type 0 where
  pub bound : r'.new_min ≤ r.new_min
  pub above : min < r.new_min → min < r'.new_min
  pub later :
      (j : ℕ)
      → j < length ps
      → is_ready 1 (job ps j) ≡ true
      → min < (job ps j).burst_time
      → r'.new_min ≤ (job ps j).burst_time
  pub quiet_before : r'.idle ≡ true → r.idle ≡ true
  pub quiet :
      r'.idle ≡ true
      → (j : ℕ) → j < length ps
      → is_ready 1 (job ps j) ≡ true
      → (job ps j).burst_time < min
  pub still : billion ≤ min → r'.idle ≡ r.idle
  pub kept : (h : ℕ) → first r.picked ≡ some h → first r'.picked ≡ some h
  pub fresh_before : first r'.picked ≡ none → first r.picked ≡ none
  pub fresh :
      first r'.picked ≡ none
      → (j : ℕ) → j < length ps
      → is_ready 1 (job ps j) ≡ true
      → (job ps j).burst_time ≢ min

first-snoc : (xs : List ℕ) (i h : ℕ) → first xs ≡ some h → first (xs ++ (i ∷ [])) ≡ some h
first-snoc [] i h e = absurd (cc e)
first-snoc (x ∷ xs) i h e = e

first-snoc_ne : (xs : List ℕ) (i : ℕ) → first (xs ++ (i ∷ [])) ≢ none
first-snoc_ne [] i e = absurd (cc e)
first-snoc_ne (x ∷ xs) i e = absurd (cc e)

consider-IsScanned :
    (min i : ℕ) (p : Proc) (r : Round)
    → min ≤ billion
    → (is_ready 1 p ≡ true → p.burst_time < billion)
    → r.new_min ≤ billion
    → IsScanned min (p ∷ []) r (consider min i p r)
consider-IsScanned min i p r m b n = record {
  bound = ground arith;
  above = ground arith;
  later = ℕ-cases _ (λ lt rd. ground arith) (λ j lt. absurd (omega arith));
  quiet_before = ground arith;
  quiet = λ q. ℕ-cases _ (λ lt rd. ground arith) (λ j lt. absurd (omega arith));
  still = λ h. ground arith;
  kept = λ h e. ground (arith, first-snoc r.picked i h);
  fresh_before = ground (arith, first-snoc_ne r.picked i);
  fresh = λ q.
      ℕ-cases _ (λ lt rd. ground (arith, first-snoc_ne r.picked i)) (λ j lt. absurd (omega arith));
}

IsScanned-join :
    (min : ℕ) (p : Proc) (ps : List Proc) (r r' r'' : Round)
    → IsScanned min (p ∷ []) r r'
    → IsScanned min ps r' r''
    → IsScanned min (p ∷ ps) r r''
IsScanned-join min p ps r r' r'' s t = record {
  bound = omega (arith, s.bound, t.bound);
  above = λ h. t.above (s.above h);
  later =
      ℕ-cases _ (λ lt rd b. omega (arith, t.bound, s.later 0 (omega arith) rd b))
        (λ j lt. t.later j (omega arith));
  quiet_before = λ q. s.quiet_before (t.quiet_before q);
  quiet = λ q.
      ℕ-cases _ (λ lt. s.quiet (t.quiet_before q) 0 (omega arith))
        (λ j lt. t.quiet q j (omega arith));
  still = λ h. t.still h ∙ s.still h;
  kept = λ h e. t.kept h (s.kept h e);
  fresh_before = λ q. s.fresh_before (t.fresh_before q);
  fresh = λ q.
      ℕ-cases _ (λ lt. s.fresh (t.fresh_before q) 0 (omega arith))
        (λ j lt. t.fresh q j (omega arith));
}

pub sjf_round-IsScanned :
    (min : ℕ) (ps : List Proc) (i : ℕ) (r : Round)
    → min ≤ billion
    → HasBounds ps
    → r.new_min ≤ billion
    → IsScanned min ps r (sjf_round min ps i r)
unfolding sjf_round
sjf_round-IsScanned min [] i r m b n = record {
  bound = omega arith;
  above = λ h. h;
  later = λ j lt. absurd (omega arith);
  quiet_before = λ q. q;
  quiet = λ q j lt. absurd (omega arith);
  still = λ h. refl;
  kept = λ h e. e;
  fresh_before = λ q. q;
  fresh = λ q j lt. absurd (omega arith);
}
sjf_round-IsScanned min (p ∷ ps) i r m b n =
    let s = consider-IsScanned min i p r m (b 0 (omega arith)) n in
    IsScanned-join min p ps r _ _ s (
      sjf_round-IsScanned min ps (i + 1) (consider min i p r) m (λ j lt. b (suc j) (omega arith))
        (omega (arith, s.bound)))

-- What holds of the old picks and of the ready slots with burst time `min` holds of the new picks.
pub sjf_round-All :
    {P : ℕ → Type 0} (min : ℕ) (ps : List Proc) (i : ℕ) (r : Round)
    → All P r.picked
    → ((j k : ℕ)
        → j < length ps
        → k ≡ i + j
        → is_ready 1 (job ps j) ≡ true
        → min ≡ (job ps j).burst_time
        → P k)
    → All P (sjf_round min ps i r).picked
unfolding sjf_round
sjf_round-All min [] i r a h = a
sjf_round-All min (p ∷ ps) i r a h =
    sjf_round-All min ps (i + 1) (consider min i p r)
      (elim (Bool-cases (is_ready 1 p)) [
        | inr e ↦ rw e a
        | inl e ↦ rw e (elim (Bool-cases (lt_int min p.burst_time)) [
          | inl l ↦ rw l a
          | inr l ↦ rw l (elim (Bool-cases (min == p.burst_time)) [
            | inl q ↦
                rw q (All-snoc r.picked i a (h 0 i (omega arith) (omega arith) e (ground arith)))
            | inr q ↦ rw q a
          ])
        ])
      ])
      (λ j k lt e. h (suc j) k (omega arith) (omega arith))
