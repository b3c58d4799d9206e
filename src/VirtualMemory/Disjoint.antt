-- ===== src/VirtualMemory/Disjoint.antt =====
-- Two page directories in one memory: what changes one leaves the other.
use ut_os.Base.{
  ℕ, ◌+◌, ◌*◌, ◌%◌, ◌≤◌, ◌<◌, ◌≡◌, refl, sym, subst, ◌∙◌, ap, Bool-cases, true, false, inl, inr,
  List, IsOther, arith,
}
use ut_os.Strings.{Memory}
use ut_os.Kalloc.{Kmem, page_size}
use ut_os.VirtualMemory.Entry.{pdx, ptx, is_present}
use ut_os.VirtualMemory.{page_table}
use ut_os.VirtualMemory.Space.{
  slot_of, entry_of, entry_of-present, entry_of-absent, IsTable, IsApart, IsSpace,
}
use ut_os.VirtualMemory.Change.{Changed}

-- No page of the directory `e` is one of the directory `d`.
abbrev pub IsDisjoint : Memory → ℕ → ℕ → Type 0
IsDisjoint m d e =
    IsApart m d e
    × ((j : ℕ)
        → j < 1024
        → is_present (slot_of m e j) ≡ true
        → IsApart m d (page_table (slot_of m e j)))

pub IsDisjoint-sym : (m : Memory) (d e : ℕ) → IsDisjoint m d e → IsDisjoint m e d
IsDisjoint-sym m d e (a, b) = (
  ((λ c. a.0 (sym c)), λ j hj h. (b j hj h).0),
  λ j hj h. (a.1 j hj h, λ l hl g. λ c. (b l hl g).1 j hj h (sym c)),
)

-- The entries of a page whose bytes stay.
pub slot_of-bytes :
    (m m' : Memory) (q j : ℕ)
    → j < 1024
    → ((x : ℕ) → q ≤ x → x < q + page_size → m' x ≡ m x)
    → slot_of m' q j ≡ slot_of m q j
unfolding slot_of
slot_of-bytes m m' q j hj f =
    rw
      (
        f (q + 4 * j) (omega arith) (omega arith),
        f (q + 4 * j + 1) (omega arith) (omega arith),
        f (q + 4 * j + 2) (omega arith) (omega arith),
        f (q + 4 * j + 3) (omega arith) (omega arith),
      )
      refl

module _ (kernel_end : ℕ) (k : Kmem) (d e : ℕ) (ps ps' : List ℕ) (k' : Kmem) (f : ℕ → ℕ)
    (c : Changed kernel_end k d ps ps' k' f) (s : IsSpace kernel_end k.mem e ps)
    (u : IsDisjoint k.mem d e) where
  page_slot :
      (q j : ℕ)
      → j < 1024
      → q % page_size ≡ 0
      → IsOther q ps
      → IsApart k.mem d q
      → slot_of k'.mem q j ≡ slot_of k.mem q j
  page_slot q j hj al o a = slot_of-bytes k.mem k'.mem q j hj (λ x l h. c.outside q x al o a l h)

  dir_kept : (j : ℕ) → j < 1024 → slot_of k'.mem e j ≡ slot_of k.mem e j
  dir_kept j hj = page_slot e j hj s.dir.aligned s.dir_not_free u.0

  was_present :
      (j : ℕ)
      → j < 1024
      → is_present (slot_of k'.mem e j) ≡ true
      → is_present (slot_of k.mem e j) ≡ true
  was_present j hj h = subst (λ y. is_present y ≡ true) (dir_kept j hj) h

  pub other-IsSpace : IsSpace kernel_end k'.mem e ps'
  other-IsSpace = record {
    dir = s.dir;
    dir_not_free = c.fewer e s.dir_not_free;
    table = λ j hj h.
        let t = s.table j hj (was_present j hj h) in
        subst (λ y. IsTable kernel_end e ps' (page_table y)) (sym (dir_kept j hj))
          (record {
            page = t.page;
            not_free = c.fewer (page_table (slot_of k.mem e j)) t.not_free;
            not_dir = t.not_dir;
          });
    distinct = λ i j hi hj n a b same.
        s.distinct i j hi hj n (was_present i hi a) (was_present j hj b) (
          ap (λ y. page_table y) (sym (dir_kept i hi))
          ∙ (same ∙ ap (λ y. page_table y) (dir_kept j hj)));
  }

  -- Nothing that is done to one directory changes an entry of the other one.
  pub other-entry_of : (x : ℕ) → entry_of k'.mem e x ≡ entry_of k.mem e x
  other-entry_of x =
      let kept = dir_kept (pdx x) (omega arith) in
      elim (Bool-cases (is_present (slot_of k.mem e (pdx x)))) [
        | inl h ↦
            (let t = s.table (pdx x) (omega arith) h in
              entry_of-present k'.mem e x (subst (λ y. is_present y ≡ true) (sym kept) h)
              ∙ (ap (λ y. slot_of k'.mem (page_table y) (ptx x)) kept
                  ∙ (page_slot (page_table (slot_of k.mem e (pdx x))) (ptx x) (omega arith)
                        t.page.aligned t.not_free (u.1 (pdx x) (omega arith) h)
                      ∙ sym (entry_of-present k.mem e x h))))
        | inr h ↦
            entry_of-absent k'.mem e x (subst (λ y. is_present y ≡ false) (sym kept) h)
            ∙ sym (entry_of-absent k.mem e x h)
      ]

  pub other-IsDisjoint : IsDisjoint k'.mem d e
  other-IsDisjoint = (
    c.tables e s.dir_not_free u.0,
    λ j hj h.
        let was = was_present j hj h in
        subst (λ y. IsApart k'.mem d (page_table y)) (sym (dir_kept j hj))
          (c.tables (page_table (slot_of k.mem e j)) (s.table j hj was).not_free (u.1 j hj was)),
  )
