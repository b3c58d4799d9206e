-- ===== src/VirtualMemory/Walk.antt =====
-- walkpgdir of vm.c: which entry it finds, and what a new table changes.
use ut_os.Base.{
  ℕ, ◌+◌, ◌*◌, ◌%◌, ◌≤◌, ◌<◌, ◌^◌, ◌≡◌, ◌≢◌, ◌⊎◌, inl, inr, sym, subst, ◌∙◌, ap, Bool-cases, true,
  false, ◌==◌, ==→eq, List, ◌∷◌, IsOther, arith,
}
use ut_os.Strings.{Memory, store_word, memset}
use ut_os.Strings.Fill.{memset_lem}
use ut_os.Kalloc.{page_size}
use ut_os.Kalloc.Chain.{IsPage}
use ut_os.VirtualMemory.Entry.{pdx, ptx, is_present}
use ut_os.VirtualMemory.{page_table, table_entry}
use ut_os.VirtualMemory.Masks.{table_entry_lem}
use ut_os.VirtualMemory.Space.{
  slot_of, entry_of, entry_of-present, entry_of-absent, slot_of-store, slot_of-store_ne,
  slot_of-memset, slot_of-memset_ne, IsTable, IsSpace,
}

-- The memory once the page `r` is the table of the directory entry `i`.
unfoldable pub fresh : Memory → ℕ → ℕ → ℕ → Memory
fresh m pgdir i r = store_word (memset m r 0 page_size) (pgdir + 4 * i) (table_entry r)

-- Outside the directory and the new table nothing changes.
pub fresh-outside :
    (m : Memory) (pgdir i r x : ℕ)
    → i < 1024
    → (x < pgdir) ⊎ (pgdir + page_size ≤ x)
    → (x < r) ⊎ (r + page_size ≤ x)
    → fresh m pgdir i r x ≡ m x
unfolding fresh
fresh-outside m pgdir i r x hi a b = ground (arith, memset_lem m r 0 page_size x)

module _ (m : Memory) (pgdir i r : ℕ) (a : pgdir % page_size ≡ 0) (b : r % page_size ≡ 0) where
  fresh_self : r < 2 ^ 32 → slot_of (fresh m pgdir i r) pgdir i ≡ table_entry r
  unfolding fresh
  fresh_self h =
      slot_of-store (memset m r 0 page_size) pgdir i (table_entry r) (table_entry_lem r b h).2

  pub fresh-other :
      (q j : ℕ)
      → q % page_size ≡ 0
      → i < 1024
      → j < 1024
      → q ≢ r
      → (pgdir ≢ q) ⊎ (i ≢ j)
      → slot_of (fresh m pgdir i r) q j ≡ slot_of m q j
  unfolding fresh
  fresh-other q j c hi hj n d =
      slot_of-store_ne (memset m r 0 page_size) pgdir i q j (table_entry r) a c hi hj d
      ∙ slot_of-memset_ne m r 0 q j b c hj (λ e. n (sym e))

  fresh-zero : (j : ℕ) → i < 1024 → j < 1024 → pgdir ≢ r → slot_of (fresh m pgdir i r) r j ≡ 0
  unfolding fresh
  fresh-zero j hi hj n =
      slot_of-store_ne (memset m r 0 page_size) pgdir i r j (table_entry r) a b hi hj (inl n)
      ∙ slot_of-memset m r j hj

module _ (kernel_end : ℕ) where
  -- The page is a table of the directory.
  abbrev Present : Memory → ℕ → ℕ → Type 0
  Present m pgdir j = is_present (slot_of m pgdir j) ≡ true

  module _ (m : Memory) (pgdir i r : ℕ) (ps : List ℕ) (s : IsSpace kernel_end m pgdir (r ∷ ps))
      (p : IsPage kernel_end r) (hi : i < 1024) (absent : is_present (slot_of m pgdir i) ≡ false)
      (o : IsOther r ps) where
    r_not_dir : pgdir ≢ r
    r_not_dir = s.dir_not_free.0

    dir_slot : (j : ℕ) → j < 1024 → i ≢ j → slot_of (fresh m pgdir i r) pgdir j ≡ slot_of m pgdir j
    dir_slot j hj n =
        fresh-other m pgdir i r s.dir.aligned p.aligned pgdir j s.dir.aligned hi hj r_not_dir
          (inr n)

    pub new_slot : slot_of (fresh m pgdir i r) pgdir i ≡ table_entry r
    new_slot = fresh_self m pgdir i r s.dir.aligned p.aligned p.word

    new_table : page_table (slot_of (fresh m pgdir i r) pgdir i) ≡ r
    new_table = ap (λ e. page_table e) new_slot ∙ (table_entry_lem r p.aligned p.word).1

    -- What an entry of the directory is afterwards: the new one, or what it was.
    pub dir_cases :
        (j : ℕ)
        → j < 1024
        → ((i ≡ j) × (page_table (slot_of (fresh m pgdir i r) pgdir j) ≡ r))
          ⊎ ((i ≢ j) × (slot_of (fresh m pgdir i r) pgdir j ≡ slot_of m pgdir j))
    dir_cases j hj = elim (Bool-cases (i == j)) [
      | inl e ↦
          (let e' : i ≡ j = ==→eq i j e in
            inl
              (e', subst (λ x. page_table (slot_of (fresh m pgdir i r) pgdir x) ≡ r) e' new_table))
      | inr n ↦ (let n' : i ≢ j = ground arith in inr (n', dir_slot j hj n'))
    ]

    old_table : (j : ℕ) → j < 1024 → Present m pgdir j → page_table (slot_of m pgdir j) ≢ r
    old_table j hj h = (s.table j hj h).not_free.0

    pub fresh-IsSpace : IsSpace kernel_end (fresh m pgdir i r) pgdir ps
    fresh-IsSpace = record {
      dir = s.dir;
      dir_not_free = s.dir_not_free.1;
      table = λ j hj h. elim (dir_cases j hj) [
        | inl (e, t) ↦
            subst (λ x. IsTable kernel_end pgdir ps x) (sym t)
              (record { page = p; not_free = o; not_dir = λ q. r_not_dir (sym q) })
        | inr (n, q) ↦
            (let old = s.table j hj (subst (λ x. is_present x ≡ true) q h) in
              subst (λ x. IsTable kernel_end pgdir ps (page_table x)) (sym q)
                (record { page = old.page; not_free = old.not_free.1; not_dir = old.not_dir }))
      ];
      distinct = λ j l hj hl n u v. elim (dir_cases j hj) [
        | inl (e, t) ↦ elim (dir_cases l hl) [
          | inl (e', t') ↦ absurd (omega arith)
          | inr (n', q') ↦ λ c.
              old_table l hl (subst (λ x. is_present x ≡ true) q' v)
                (ap (λ x. page_table x) (sym q') ∙ (sym c ∙ t))
        ]
        | inr (n', q) ↦ elim (dir_cases l hl) [
          | inl (e', t') ↦ λ c.
              old_table j hj (subst (λ x. is_present x ≡ true) q u)
                (ap (λ x. page_table x) (sym q) ∙ (c ∙ t'))
          | inr (n2, q') ↦ λ c.
              s.distinct j l hj hl n (subst (λ x. is_present x ≡ true) q u)
                (subst (λ x. is_present x ≡ true) q' v)
                (ap (λ x. page_table x) (sym q) ∙ (c ∙ ap (λ x. page_table x) q'))
        ]
      ];
    }

    -- A new table says of no address more than that it is not mapped.
    pub fresh-entry_of : (va : ℕ) → entry_of (fresh m pgdir i r) pgdir va ≡ entry_of m pgdir va
    fresh-entry_of va = elim (dir_cases (pdx va) (omega arith)) [
      | inl (e, t) ↦
          (let here : slot_of (fresh m pgdir i r) pgdir (pdx va) ≡ table_entry r =
              subst (λ x. slot_of (fresh m pgdir i r) pgdir x ≡ table_entry r) e new_slot in
            let there : is_present (slot_of (fresh m pgdir i r) pgdir (pdx va)) ≡ true =
              subst (λ x. is_present x ≡ true) (sym here) (table_entry_lem r p.aligned p.word).0 in
            entry_of-present (fresh m pgdir i r) pgdir va there
            ∙ (subst (λ x. slot_of (fresh m pgdir i r) x (ptx va) ≡ 0) (sym t)
                  (fresh-zero m pgdir i r s.dir.aligned p.aligned (ptx va) hi (omega arith)
                    r_not_dir)
                ∙ sym (
                    entry_of-absent m pgdir va
                      (subst (λ x. is_present (slot_of m pgdir x) ≡ false) e absent))))
      | inr (n, q) ↦ elim (Bool-cases (is_present (slot_of m pgdir (pdx va)))) [
        | inl h ↦
            (let old = s.table (pdx va) (omega arith) h in
              entry_of-present (fresh m pgdir i r) pgdir va
                (subst (λ x. is_present x ≡ true) (sym q) h)
              ∙ (ap (λ e. slot_of (fresh m pgdir i r) (page_table e) (ptx va)) q
                  ∙ (fresh-other m pgdir i r s.dir.aligned p.aligned
                        (page_table (slot_of m pgdir (pdx va))) (ptx va) old.page.aligned hi
                        (omega arith) old.not_free.0 (inl (λ e. old.not_dir (sym e)))
                      ∙ sym (entry_of-present m pgdir va h))))
        | inr h ↦
            entry_of-absent (fresh m pgdir i r) pgdir va
              (subst (λ x. is_present x ≡ false) (sym q) h)
            ∙ sym (entry_of-absent m pgdir va h)
      ]
    ]
