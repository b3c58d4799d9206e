-- ===== src/Proc/Queues/Arrival.antt =====
-- The first come, first served choice.
use ut_os.Base.{
  ℕ, suc, ◌+◌, ◌≤◌, ◌<◌, ◌≡◌, ◌⊎◌, refl, ap, ◌∙◌, inl, inr, Bool, Bool-cases, ℕ-cases, true, false,
  ◌&&◌, Option, none, some, List, [], ◌∷◌, get_or, length, bias, lt_int, arith,
}
use ut_os.Proc.{Proc, blank_proc}
use ut_os.Proc.Queues.{is_ready, billion, fcfs_from, fcfs_scheduler}

abbrev pub at : List Proc → ℕ → Proc
at ps j = get_or ps j blank_proc

-- No ready process came before the time `m`.
abbrev pub NoneBefore : List Proc → ℕ → Type 0
NoneBefore ps m =
    (j : ℕ) → j < length ps → is_ready 2 (at ps j) ≡ true → lt_int (at ps j).arrival m ≡ false

-- The process `k` is ready, came before `m`, and is the first of the earliest ready ones.
pub record IsEarliest (ps : List Proc) (m k : ℕ) : Type 0 where
  pub within : k < length ps
  pub ready : is_ready 2 (at ps k) ≡ true
  pub before : bias (at ps k).arrival < bias m
  pub least :
      (j : ℕ)
      → j < length ps
      → is_ready 2 (at ps j) ≡ true
      → bias (at ps k).arrival ≤ bias (at ps j).arrival
  pub first :
      (j : ℕ)
      → j < k
      → is_ready 2 (at ps j) ≡ true
      → bias (at ps k).arrival < bias (at ps j).arrival

abbrev takes : Proc → ℕ → Bool
takes p m = is_ready 2 p && lt_int p.arrival m

-- How the loop ends, started at slot `i` with a choice `mi` made before it.
abbrev Ends : List Proc → ℕ → ℕ → Option ℕ → Option ℕ → Type 0
Ends ps i m mi r = (NoneBefore ps m × (r ≡ mi)) ⊎ ((k : ℕ) × IsEarliest ps m k × (r ≡ some (i + k)))

module _ (p : Proc) (ps : List Proc) (i m : ℕ) (mi r : Option ℕ) where
  take-here : takes p m ≡ true → NoneBefore ps p.arrival → IsEarliest (p ∷ ps) m 0
  take-here t h = record {
    within = omega arith;
    ready = ground arith;
    before = ground arith;
    least = ℕ-cases _ (λ lt rd. omega arith) (λ j lt rd. ground (arith, h j));
    first = λ j lt rd. absurd (omega arith);
  }

  take-later :
      takes p m ≡ true → (k : ℕ) → IsEarliest ps p.arrival k → IsEarliest (p ∷ ps) m (suc k)
  take-later t k b = record {
    within = omega (arith, b.within);
    ready = b.ready;
    before = ground (arith, b.before);
    least = ℕ-cases _ (λ lt rd. omega (arith, b.before)) (λ j lt rd. b.least j (omega arith) rd);
    first = ℕ-cases _ (λ lt rd. b.before) (λ j lt rd. b.first j (omega arith) rd);
  }

  skip-none : takes p m ≡ false → NoneBefore ps m → NoneBefore (p ∷ ps) m
  skip-none t h = ℕ-cases _ (λ lt rd. ground arith) (λ j lt rd. h j (omega arith) rd)

  skip-later : takes p m ≡ false → (k : ℕ) → IsEarliest ps m k → IsEarliest (p ∷ ps) m (suc k)
  skip-later t k b = record {
    within = omega (arith, b.within);
    ready = b.ready;
    before = b.before;
    least = ℕ-cases _ (λ lt rd. ground (arith, b.before)) (λ j lt rd. b.least j (omega arith) rd);
    first = ℕ-cases _ (λ lt rd. ground (arith, b.before)) (λ j lt rd. b.first j (omega arith) rd);
  }

  Ends-take : takes p m ≡ true → Ends ps (i + 1) p.arrival (some i) r → Ends (p ∷ ps) i m mi r
  Ends-take t (inl (h, e)) = inr (0, take-here t h, e ∙ ap some (omega arith))
  Ends-take t (inr (k, b, e)) = inr (suc k, take-later t k b, e ∙ ap some (omega arith))

  Ends-skip : takes p m ≡ false → Ends ps (i + 1) m mi r → Ends (p ∷ ps) i m mi r
  Ends-skip t (inl (h, e)) = inl (skip-none t h, e)
  Ends-skip t (inr (k, b, e)) = inr (suc k, skip-later t k b, e ∙ ap some (omega arith))

fcfs_from-Ends : (ps : List Proc) (i m : ℕ) (mi : Option ℕ) → Ends ps i m mi (fcfs_from ps i m mi)
unfolding fcfs_from
fcfs_from-Ends [] i m mi = inl (λ j lt h. absurd (omega arith), refl)
fcfs_from-Ends (p ∷ ps) i m mi = elim (Bool-cases (takes p m)) [
  | inl t ↦ rw t (Ends-take p ps i m mi _ t (fcfs_from-Ends ps (i + 1) p.arrival (some i)))
  | inr t ↦ rw t (Ends-skip p ps i m mi _ t (fcfs_from-Ends ps (i + 1) m mi))
]

-- The first come, first served choice takes a runnable process of queue 2 whose arrival is the least
-- of all of them, the first such one in the table; it finds nothing exactly when none arrived before
-- tick 1e9.
pub fcfs_scheduler_lem :
    (ps : List Proc)
    → (NoneBefore ps billion × (fcfs_scheduler ps ≡ none))
      ⊎ ((k : ℕ) × IsEarliest ps billion k × (fcfs_scheduler ps ≡ some k))
unfolding fcfs_scheduler
fcfs_scheduler_lem ps = elim (fcfs_from-Ends ps 0 billion none) [
  | inl h ↦ inl h
  | inr (k, b, e) ↦ inr (k, b, e ∙ ap some (omega arith))
]
