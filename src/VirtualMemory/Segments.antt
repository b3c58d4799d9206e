-- ===== src/VirtualMemory/Segments.antt =====
-- The table of shared pages of vm.c: which entry an id has.
use ut_os.Base.{
  ℕ, zero, suc, ◌+◌, ◌≤◌, ◌<◌, ◌≡◌, ◌≢◌, ◌⊎◌, inl, inr, refl, sym, subst, ◌∙◌, ap, Bool-cases, true,
  false, not, ◌&&◌, ◌==◌, ==→eq, ne→==, some, none, Option, arith,
}
use ut_os.VirtualMemory.Shared.{ShmTable, n_shared_pages, find_open, find_close}

-- The entry is open, under the id.
abbrev pub IsOpen : ShmTable → ℕ → ℕ → Type 0
IsOpen t id j = (t.ref_count j ≢ 0) × (t.id j ≡ id)

-- No id is open twice.
abbrev pub AreSingle : ShmTable → Type 0
AreSingle t =
    (i j : ℕ)
    → i < n_shared_pages
    → j < n_shared_pages
    → t.ref_count i ≢ 0
    → t.ref_count j ≢ 0
    → t.id i ≡ t.id j
    → i ≡ j

module _ (t : ShmTable) (id : ℕ) where
  open_from :
      (n i j : ℕ) (found : Option ℕ)
      → i ≤ j
      → j < i + n
      → IsOpen t id j
      → ((l : ℕ) → i ≤ l → l < j → t.ref_count l ≢ 0 → t.id l ≢ id)
      → find_open t id n i found ≡ some j
  unfolding find_open
  open_from zero i j found a b o f = absurd (omega arith)
  open_from (suc n) i j found a b o f = elim (Bool-cases (i == j)) [
    | inl e ↦
        (let e' : i ≡ j = ==→eq i j e in
          let nz : (t.ref_count i == 0) ≡ false = ground (arith, o.0, ap t.ref_count e') in
          let same : (t.id i == id) ≡ true = ground (arith, o.1, ap t.id e') in
          rw (nz, same, find_open) (ap some e'))
    | inr e ↦
        (let n' : i ≢ j = ground arith in
          let rest = λ (g : Option ℕ).
            open_from n (i + 1) j g (omega arith) (omega arith) o (λ l u v. f l (omega arith) v) in
          elim (Bool-cases (t.ref_count i == 0)) [
            | inl z ↦ rw (z, find_open) (rest (some i))
            | inr z ↦
                (let other : (t.id i == id) ≡ false =
                    ne→== (t.id i) id (f i (omega arith) (omega arith) (ground arith)) in
                  rw (z, other, find_open) (rest found))
          ])
  ]

  -- What the scan for a free entry gives where the id is not open.
  new_from :
      (n i : ℕ) (found : Option ℕ)
      → ((l : ℕ) → i ≤ l → l < i + n → t.ref_count l ≢ 0 → t.id l ≢ id)
      → ((find_open t id n i found ≡ found) × ((l : ℕ) → i ≤ l → l < i + n → t.ref_count l ≢ 0))
        ⊎ ((l : ℕ) × (find_open t id n i found ≡ some l)
            × (i ≤ l)
            × (l < i + n)
            × (t.ref_count l ≡ 0))
  unfolding find_open
  new_from zero i found f = inl (refl, λ l a b. absurd (omega arith))
  new_from (suc n) i found f = elim (Bool-cases (t.ref_count i == 0)) [
    | inl z ↦
        rw (z, find_open)
          (elim (new_from n (i + 1) (some i) (λ l a b. f l (omega arith) (omega arith))) [
            | inl (e, _) ↦ inr (i, e, omega arith, omega arith, ==→eq (t.ref_count i) 0 z)
            | inr (l, e, a, b, r) ↦ inr (l, e, omega arith, omega arith, r)
          ])
    | inr z ↦
        (let nz : t.ref_count i ≢ 0 = ground arith in
          let other : (t.id i == id) ≡ false =
            ne→== (t.id i) id (f i (omega arith) (omega arith) nz) in
          rw (z, other, find_open)
            (elim (new_from n (i + 1) found (λ l a b. f l (omega arith) (omega arith))) [
              | inl (e, g) ↦ inl (
                e,
                λ l a b. elim (Bool-cases (i == l)) [
                  | inl same ↦ (λ c. nz (ap t.ref_count (==→eq i l same) ∙ c))
                  | inr diff ↦ g l (ground arith) (omega arith)
                ],
              )
              | inr (l, e, a, b, r) ↦ inr (l, e, omega arith, omega arith, r)
            ]))
  ]

  IsOpen-or_not :
      (n : ℕ)
      → ((j : ℕ) × (j < n) × IsOpen t id j) ⊎ ((l : ℕ) → l < n → t.ref_count l ≢ 0 → t.id l ≢ id)
  IsOpen-or_not zero = inr (λ l h. absurd (omega arith))
  IsOpen-or_not (suc n) = elim (IsOpen-or_not n) [
    | inl (j, h, o) ↦ inl (j, omega arith, o)
    | inr f ↦ elim (Bool-cases (t.id n == id && not (t.ref_count n == 0))) [
      | inl e ↦ inl (n, omega arith, ((λ z. ground (arith, z)), ground arith))
      | inr e ↦ inr (λ l h nz. elim (Bool-cases (l == n)) [
        | inl same ↦
            (λ c. ground (arith, ap t.id (==→eq l n same), ap t.ref_count (==→eq l n same)))
        | inr diff ↦ f l (ground arith) nz
      ])
    ]
  ]

  -- The scan of open_sharedmem finds the entry that is open under the id, if there is one, whatever
  -- entries are free; otherwise it finds a free entry, or none when every entry is open under another
  -- id.
  pub find_open_lem :
      AreSingle t
      → ((j : ℕ) × (j < n_shared_pages)
          × IsOpen t id j
          × (find_open t id n_shared_pages 0 none ≡ some j))
        ⊎ (((l : ℕ) → l < n_shared_pages → t.ref_count l ≢ 0 → t.id l ≢ id)
            × (((j : ℕ) × (j < n_shared_pages)
                  × (t.ref_count j ≡ 0)
                  × (find_open t id n_shared_pages 0 none ≡ some j))
                ⊎ (((l : ℕ) → l < n_shared_pages → t.ref_count l ≢ 0)
                    × (find_open t id n_shared_pages 0 none ≡ none))))
  find_open_lem s = elim (IsOpen-or_not n_shared_pages) [
    | inl (j, h, o) ↦ inl (
      j,
      h,
      o,
      open_from n_shared_pages 0 j none (omega arith) (omega arith) o
          (λ l a b nz e. absurd (omega (arith, s l j (omega arith) h nz o.0 (e ∙ sym o.1)))),
    )
    | inr f ↦ inr (
      f,
      elim (new_from n_shared_pages 0 none (λ l a b. f l (omega arith))) [
        | inl (e, g) ↦ inr (λ l h. g l (omega arith) (omega arith), e)
        | inr (l, e, a, b, r) ↦ inl (l, omega arith, r, e)
      ],
    )
  ]

  close_from :
      (n i j : ℕ)
      → i ≤ j
      → j < i + n
      → IsOpen t id j
      → ((l : ℕ) → i ≤ l → l < j → t.ref_count l ≢ 0 → t.id l ≢ id)
      → find_close t id n i ≡ some j
  unfolding find_close
  close_from zero i j a b o f = absurd (omega arith)
  close_from (suc n) i j a b o f = elim (Bool-cases (i == j)) [
    | inl e ↦
        (let e' : i ≡ j = ==→eq i j e in
          let test : (t.id i == id && not (t.ref_count i == 0)) ≡ true =
            ground (arith, o.0, o.1, ap t.ref_count e', ap t.id e') in
          rw (test, find_close) (ap some e'))
    | inr e ↦
        (let n' : i ≢ j = ground arith in
          let test : (t.id i == id && not (t.ref_count i == 0)) ≡ false =
            ground (arith, f i (omega arith) (omega arith)) in
          rw (test, find_close)
            (close_from n (i + 1) j (omega arith) (omega arith) o (λ l u v. f l (omega arith) v)))
  ]

  -- The scan of close_sharedmem finds the entry that is open under the id.
  pub find_close_lem :
      (j : ℕ)
      → AreSingle t
      → j < n_shared_pages
      → IsOpen t id j
      → find_close t id n_shared_pages 0 ≡ some j
  find_close_lem j s h o =
      close_from n_shared_pages 0 j (omega arith) (omega arith) o
        (λ l a b nz e. absurd (omega (arith, s l j (omega arith) h nz o.0 (e ∙ sym o.1))))

  close_sound : (n i j : ℕ) → find_close t id n i ≡ some j → IsOpen t id j × (j < i + n)
  unfolding find_close
  close_sound zero i j e = absurd (cc)
  close_sound (suc n) i j e = elim (Bool-cases (t.id i == id && not (t.ref_count i == 0))) [
    | inl h ↦
        (let same : i ≡ j = ground (arith, h, e) in
          subst (λ x. IsOpen t id x × (x < i + suc n)) same
            (((λ z. ground (arith, z)), ground arith), omega arith))
    | inr h ↦
        (let rest : find_close t id n (i + 1) ≡ some j = ground (arith, h, e) in
          let (o, l) = close_sound n (i + 1) j rest in (o, omega arith))
  ]

  -- The scan of close_sharedmem finds open entries only.
  pub find_close-IsOpen :
      (j : ℕ) → find_close t id n_shared_pages 0 ≡ some j → IsOpen t id j × (j < n_shared_pages)
  find_close-IsOpen j e = let (o, l) = close_sound n_shared_pages 0 j e in (o, omega arith)
