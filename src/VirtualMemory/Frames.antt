-- ===== src/VirtualMemory/Frames.antt =====
-- The pages of a process in vm.c, and what freeing one of them leaves.
use ut_os.Base.{
  ℕ, ◌+◌, ◌*◌, ◌/◌, ◌%◌, ◌≤◌, ◌<◌, ◌^◌, ◌≡◌, ◌≢◌, ◌⊎◌, inl, inr, sym, subst, ◌∙◌, ap, Bool-cases,
  true, false, List, ◌∷◌, IsOther, arith,
}
use ut_os.Strings.{Memory}
use ut_os.Kalloc.{page_size}
use ut_os.Kalloc.Chain.{IsPage}
use ut_os.VirtualMemory.Entry.{p2v, pdx, ptx, pte_addr, is_present}
use ut_os.VirtualMemory.{page_table}
use ut_os.VirtualMemory.Space.{
  slot_of, entry_of, entry_of-present, entry_of-absent, IsTable, IsApart, IsSpace,
}
use ut_os.VirtualMemory.Find.{apart}
use ut_os.VirtualMemory.Disjoint.{slot_of-bytes}

-- The page that an entry names, at its kernel address.
abbrev pub frame_of : Memory → ℕ → ℕ → ℕ
frame_of m d x = p2v (pte_addr (entry_of m d x))

-- From `m` to `m'` no byte outside the page `v` changes, which is none of the directory's.
module _ (kernel_end : ℕ) (m m' : Memory) (d v : ℕ) (ps : List ℕ) (s : IsSpace kernel_end m d ps)
    (a : IsApart m d v) (al : v % page_size ≡ 0)
    (f : (x : ℕ) → (x < v) ⊎ (v + page_size ≤ x) → m' x ≡ m x) where
  far_slot : (q j : ℕ) → j < 1024 → q % page_size ≡ 0 → q ≢ v → slot_of m' q j ≡ slot_of m q j
  far_slot q j hj b n = slot_of-bytes m m' q j hj (λ x l h. f x (apart q v x b al n l h))

  pub freed_dir : (j : ℕ) → j < 1024 → slot_of m' d j ≡ slot_of m d j
  freed_dir j hj = far_slot d j hj s.dir.aligned (λ e. a.0 (sym e))

  -- The page can go to the free pages.
  pub freed-IsSpace : IsSpace kernel_end m' d (v ∷ ps)
  freed-IsSpace = record {
    dir = s.dir;
    dir_not_free = ((λ e. a.0 (sym e)), s.dir_not_free);
    table = λ j hj h.
        let h' = subst (λ y. is_present y ≡ true) (freed_dir j hj) h in
        let t = s.table j hj h' in
        subst (λ y. IsTable kernel_end d (v ∷ ps) (page_table y)) (sym (freed_dir j hj))
          (record { page = t.page; not_free = (a.1 j hj h', t.not_free); not_dir = t.not_dir });
    distinct = λ i j hi hj n p q same.
        s.distinct i j hi hj n (subst (λ y. is_present y ≡ true) (freed_dir i hi) p)
          (subst (λ y. is_present y ≡ true) (freed_dir j hj) q)
          (ap (λ y. page_table y) (sym (freed_dir i hi))
            ∙ (same ∙ ap (λ y. page_table y) (freed_dir j hj)));
  }

  pub freed-entry_of : (x : ℕ) → entry_of m' d x ≡ entry_of m d x
  freed-entry_of x =
      let kept = freed_dir (pdx x) (omega arith) in
      elim (Bool-cases (is_present (slot_of m d (pdx x)))) [
        | inl h ↦
            (let t = s.table (pdx x) (omega arith) h in
              entry_of-present m' d x (subst (λ y. is_present y ≡ true) (sym kept) h)
              ∙ (ap (λ y. slot_of m' (page_table y) (ptx x)) kept
                  ∙ (far_slot (page_table (slot_of m d (pdx x))) (ptx x) (omega arith)
                        t.page.aligned (a.1 (pdx x) (omega arith) h)
                      ∙ sym (entry_of-present m d x h))))
        | inr h ↦
            entry_of-absent m' d x (subst (λ y. is_present y ≡ false) (sym kept) h)
            ∙ sym (entry_of-absent m d x h)
      ]

  pub freed-IsApart : (q : ℕ) → IsApart m d q → IsApart m' d q
  freed-IsApart q u = (
    u.0,
    λ j hj h.
        subst (λ y. page_table y ≢ q) (sym (freed_dir j hj))
          (u.1 j hj (subst (λ y. is_present y ≡ true) (freed_dir j hj) h)),
  )

  pub freed-IsApart_back : (q : ℕ) → IsApart m' d q → IsApart m d q
  freed-IsApart_back q u = (
    u.0,
    λ j hj h.
        subst (λ y. page_table y ≢ q) (freed_dir j hj)
          (u.1 j hj (subst (λ y. is_present y ≡ true) (sym (freed_dir j hj)) h)),
  )

-- The address `x` lies in a page that begins below `hi`, and not below `lo`.
abbrev pub IsWithin : ℕ → ℕ → ℕ → Type 0
IsWithin lo hi x = (lo ≤ x) × (x / page_size * page_size < hi) × (x < 2 ^ 32)

module _ (kernel_end : ℕ) where
  -- The pages that the directory maps from `lo` to `hi` are pages of memory, neither free nor tables,
  -- each mapped once.
  pub record IsOwned (m : Memory) (d : ℕ) (ps : List ℕ) (lo hi : ℕ) : Type 0 where
    pub page :
        (x : ℕ)
        → IsWithin lo hi x
        → is_present (entry_of m d x) ≡ true
        → IsPage kernel_end (frame_of m d x)
    pub not_free :
        (x : ℕ)
        → IsWithin lo hi x
        → is_present (entry_of m d x) ≡ true
        → IsOther (frame_of m d x) ps
    pub not_table :
        (x : ℕ)
        → IsWithin lo hi x
        → is_present (entry_of m d x) ≡ true
        → IsApart m d (frame_of m d x)
    pub once :
        (x y : ℕ)
        → IsWithin lo hi x
        → IsWithin lo hi y
        → x / page_size ≢ y / page_size
        → is_present (entry_of m d x) ≡ true
        → is_present (entry_of m d y) ≡ true
        → frame_of m d x ≢ frame_of m d y

  -- The owned pages behind the first one, once the memory is `m'` and the free pages are `qs`, with
  -- the same entries there.
  pub IsOwned-later :
      (m m' : Memory) (d : ℕ) (ps qs : List ℕ) (lo lo' hi : ℕ)
      → lo ≤ lo'
      → IsOwned m d ps lo hi
      → ((x : ℕ) → IsWithin lo' hi x → entry_of m' d x ≡ entry_of m d x)
      → ((x : ℕ)
          → IsWithin lo' hi x
          → is_present (entry_of m d x) ≡ true
          → IsOther (frame_of m d x) qs)
      → ((x : ℕ)
          → IsWithin lo' hi x
          → is_present (entry_of m d x) ≡ true
          → IsApart m' d (frame_of m d x))
      → IsOwned m' d qs lo' hi
  IsOwned-later m m' d ps qs lo lo' hi l o f g t =
      let wide = λ (x : ℕ) (w : IsWithin lo' hi x).
        (let r : IsWithin lo hi x = (omega (arith, w.0), w.1, w.2) in r) in
      let was = λ (x : ℕ) (w : IsWithin lo' hi x) (p : is_present (entry_of m' d x) ≡ true).
        subst (λ y. is_present y ≡ true) (f x w) p in
      record {
        page = λ x w p.
            subst (λ y. IsPage kernel_end (p2v (pte_addr y))) (sym (f x w))
              (o.page x (wide x w) (was x w p));
        not_free =
            λ x w p. subst (λ y. IsOther (p2v (pte_addr y)) qs) (sym (f x w)) (g x w (was x w p));
        not_table =
            λ x w p. subst (λ y. IsApart m' d (p2v (pte_addr y))) (sym (f x w)) (t x w (was x w p));
        once = λ x y v w n p q same. o.once x y (wide x v) (wide y w) n (was x v p) (was y w q) (
            ap (λ e. p2v (pte_addr e)) (sym (f x v)) ∙ (same ∙ ap (λ e. p2v (pte_addr e)) (f y w)));
      }
