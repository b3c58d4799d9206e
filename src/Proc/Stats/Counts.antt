-- ===== src/Proc/Stats/Counts.antt =====
-- What get_most_invoked says of the counts of system calls.
use ut_os.Base.{
  ℕ, suc, ◌+◌, ◌≤◌, ◌<◌, ◌≡◌, ◌⊎◌, refl, ap, ◌∙◌, inl, inr, ◌==◌, ℕ-cases, Bool-cases, true, false,
  Option, none, some, List, [], ◌∷◌, length, get_or, lt_int, bias, find_index_of, arith,
}
use ut_os.Proc.{Ptable, blank_proc}
use ut_os.Proc.Alloc.{slot}
use ut_os.Proc.Stats.{most_from, get_most_invoked}
use ut_os.Proc.Stats.Laws.{HasPid}

abbrev NoneAbove : List ℕ → ℕ → Type 0
NoneAbove cs m = (j : ℕ) → j < length cs → bias (get_or cs j 0) ≤ bias m

-- `max` is the largest count, above `m`, and call number `k` is the first that has it.
pub record IsMost (cs : List ℕ) (m k max : ℕ) : Type 0 where
  pub within : k < length cs
  pub value : get_or cs k 0 ≡ max
  pub above : bias m < bias max
  pub most : (j : ℕ) → j < length cs → bias (get_or cs j 0) ≤ bias max
  pub first : (j : ℕ) → j < k → bias (get_or cs j 0) < bias max

abbrev Ends : List ℕ → ℕ → ℕ → Option ℕ → ℕ × Option ℕ → Type 0
Ends cs i m mi r =
    (NoneAbove cs m × (r ≡ (m, mi))) ⊎ ((k max : ℕ) × IsMost cs m k max × (r ≡ (max, some (i + k))))

module _ (c : ℕ) (cs : List ℕ) (i m : ℕ) (mi : Option ℕ) (r : ℕ × Option ℕ) where
  Ends-take : lt_int m c ≡ true → Ends cs (i + 1) c (some i) r → Ends (c ∷ cs) i m mi r
  Ends-take t (inl (h, e)) = inr (
    0,
    c,
    record {
      within = omega arith;
      value = refl;
      above = ground arith;
      most = ℕ-cases _ (λ lt. omega arith) (λ j lt. h j (omega arith));
      first = λ j lt. absurd (omega arith);
    },
    e ∙ ap (λ k. (c, some k)) (omega arith),
  )
  Ends-take t (inr (k, max, b, e)) = inr (
    suc k,
    max,
    record {
      within = omega (arith, b.within);
      value = b.value;
      above = ground (arith, b.above);
      most = ℕ-cases _ (λ lt. omega (arith, b.above)) (λ j lt. b.most j (omega arith));
      first = ℕ-cases _ (λ lt. b.above) (λ j lt. b.first j (omega arith));
    },
    e ∙ ap (λ k. (max, some k)) (omega arith),
  )

  Ends-skip : lt_int m c ≡ false → Ends cs (i + 1) m mi r → Ends (c ∷ cs) i m mi r
  Ends-skip t (inl (h, e)) = inl (ℕ-cases _ (λ lt. ground arith) (λ j lt. h j (omega arith)), e)
  Ends-skip t (inr (k, max, b, e)) = inr (
    suc k,
    max,
    record {
      within = omega (arith, b.within);
      value = b.value;
      above = b.above;
      most = ℕ-cases _ (λ lt. ground (arith, b.above)) (λ j lt. b.most j (omega arith));
      first = ℕ-cases _ (λ lt. ground (arith, b.above)) (λ j lt. b.first j (omega arith));
    },
    e ∙ ap (λ k. (max, some k)) (omega arith),
  )

most_from-Ends : (cs : List ℕ) (i m : ℕ) (mi : Option ℕ) → Ends cs i m mi (most_from cs i m mi)
unfolding most_from
most_from-Ends [] i m mi = inl (λ j lt. absurd (omega arith), refl)
most_from-Ends (c ∷ cs) i m mi = elim (Bool-cases (lt_int m c)) [
  | inl t ↦ rw t (Ends-take c cs i m mi _ t (most_from-Ends cs (i + 1) c (some i)))
  | inr t ↦ rw t (Ends-skip c cs i m mi _ t (most_from-Ends cs (i + 1) m mi))
]

-- get_most_invoked, called with the lock free on the pid of a process, frees the lock and changes
-- nothing. It reports the largest count of the first slot with the pid and the first call that has it;
-- it reports none exactly when no count is positive.
pub get_most_invoked_lem :
    (pid i : ℕ) (t : Ptable)
    → t.held ≡ false
    → HasPid pid t i
    → (r : ℕ × Option ℕ) × (get_most_invoked pid t ≡ some (0, some r, t))
      × (((r ≡ (0, none))
            × ((j : ℕ) → j < length (slot t i).sc → bias (get_or (slot t i).sc j 0) ≤ bias 0))
          ⊎ ((k max : ℕ) × (r ≡ (max, some k)) × IsMost (slot t i).sc 0 k max))
unfolding get_most_invoked
get_most_invoked_lem pid i t free f =
    let e = find_index_of (λ p. p.pid == pid) blank_proc t.procs i f in
    (
      most_from (slot t i).sc 0 0 none,
      ground arith,
      elim (most_from-Ends (slot t i).sc 0 0 none) [
        | inl (h, w) ↦ inl (w, h)
        | inr (k, max, b, w) ↦ inr (k, max, w ∙ ap (λ k. (max, some k)) (omega arith), b)
      ],
    )
