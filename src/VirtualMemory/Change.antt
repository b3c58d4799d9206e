-- ===== src/VirtualMemory/Change.antt =====
-- What a change of some page table entries keeps, and that such changes follow one another.
use ut_os.Base.{
  ℕ, ◌+◌, ◌*◌, ◌/◌, ◌%◌, ◌≤◌, ◌<◌, ◌^◌, ◌≡◌, ◌≢◌, ◌⊎◌, inl, inr, sym, subst, ◌∙◌, ap, Bool-cases,
  true, false, if-cases, ◌==◌, ==→eq, if◌then◌else◌, List, [], ◌∷◌, IsOther, IsOther-In, drop,
  arith,
}
use ut_os.Strings.{Memory, store_word}
use ut_os.Kalloc.{Kmem, page_size}
use ut_os.Kalloc.Chain.{IsFreeList}
use ut_os.VirtualMemory.Entry.{pdx, ptx, is_present}
use ut_os.VirtualMemory.{page_table, set_pte}
use ut_os.VirtualMemory.Space.{
  slot_of, slot_of-store, slot_of-store_ne, entry_of, entry_of-present, entry_of-absent,
  entry_of-page, IsChain-same, IsChain-IsPage, IsTable, IsApart, IsSpace,
}
use ut_os.VirtualMemory.Find.{Walked, left_free, slot_of-zero, apart}

store-outside :
    (m : Memory) (t i w x : ℕ)
    → i < 1024
    → (x < t) ⊎ (t + page_size ≤ x)
    → store_word m (t + 4 * i) w x ≡ m x
store-outside m t i w x hi h = ground arith

-- The entries with that of `va` set to `w`.
abbrev pub entered : (ℕ → ℕ) → ℕ → ℕ → ℕ → ℕ
entered f va w x = if x / page_size == va / page_size then w else f x

module _ (kernel_end : ℕ) where
  -- From `k` to `k'` the entries become `f`, the tables stay well-formed, and the pages that are
  -- neither free nor tables nor the directory keep their bytes, and were not free before either.
  pub record Changed (k : Kmem) (pgdir : ℕ) (ps ps' : List ℕ) (k' : Kmem) (f : ℕ → ℕ) : Type 0 where
    pub space : IsSpace kernel_end k'.mem pgdir ps'
    pub free : IsFreeList kernel_end k' ps'
    pub entries : (x : ℕ) → x < 2 ^ 32 → entry_of k'.mem pgdir x ≡ f x
    pub fewer : (q : ℕ) → IsOther q ps → IsOther q ps'
    pub tables : (q : ℕ) → IsOther q ps → IsApart k.mem pgdir q → IsApart k'.mem pgdir q
    pub none_lost :
        (q : ℕ) → IsOther q ps' → IsApart k'.mem pgdir q → IsOther q ps × IsApart k.mem pgdir q
    pub outside :
        (q x : ℕ)
        → q % page_size ≡ 0
        → IsOther q ps
        → IsApart k.mem pgdir q
        → q ≤ x
        → x < q + page_size
        → k'.mem x ≡ k.mem x

  pub Changed-trans :
      (k k1 k2 : Kmem) (pgdir : ℕ) (ps ps1 ps2 : List ℕ) (f g : ℕ → ℕ)
      → Changed k pgdir ps ps1 k1 f
      → Changed k1 pgdir ps1 ps2 k2 g
      → Changed k pgdir ps ps2 k2 g
  Changed-trans k k1 k2 pgdir ps ps1 ps2 f g c d = record {
    space = d.space;
    free = d.free;
    entries = d.entries;
    fewer = λ q o. d.fewer q (c.fewer q o);
    tables = λ q o u. d.tables q (c.fewer q o) (c.tables q o u);
    none_lost = λ q o u. let (o1, u1) = d.none_lost q o u in c.none_lost q o1 u1;
    outside = λ q x a o u l h.
        d.outside q x a (c.fewer q o) (c.tables q o u) l h ∙ c.outside q x a o u l h;
  }

  pub Changed-eq :
      (k : Kmem) (pgdir : ℕ) (ps ps' : List ℕ) (k' : Kmem) (f g : ℕ → ℕ)
      → ((x : ℕ) → x < 2 ^ 32 → f x ≡ g x)
      → Changed k pgdir ps ps' k' f
      → Changed k pgdir ps ps' k' g
  Changed-eq k pgdir ps ps' k' f g h c = record {
    space = c.space;
    free = c.free;
    entries = λ x l. c.entries x l ∙ h x l;
    fewer = c.fewer;
    tables = c.tables;
    none_lost = c.none_lost;
    outside = c.outside;
  }

  drop-fewer : (q : ℕ) (ps : List ℕ) → IsOther q ps → IsOther q (drop 1 ps)
  drop-fewer q [] o = tt
  drop-fewer q (p ∷ ps) o = o.1

  left-fewer :
      (m : Memory) (pgdir va : ℕ) (ps : List ℕ) (q : ℕ)
      → IsOther q ps
      → IsOther q (left_free m pgdir va ps)
  left-fewer m pgdir va ps q o =
      if-cases (λ l. IsOther q l) (is_present (slot_of m pgdir (pdx va))) ps (drop 1 ps) (λ e. o)
        (λ e. drop-fewer q ps o)

  pub Walked-Changed :
      (k : Kmem) (pgdir va : ℕ) (ps : List ℕ) (k' : Kmem) (pte : ℕ)
      → Walked kernel_end k pgdir va ps (left_free k.mem pgdir va ps) k' pte
      → Changed k pgdir ps (left_free k.mem pgdir va ps) k' (λ x. entry_of k.mem pgdir x)
  Walked-Changed k pgdir va ps k' pte w = record {
    space = w.space;
    free = w.free;
    entries = λ x l. w.entries x;
    fewer = left-fewer k.mem pgdir va ps;
    tables = w.tables;
    none_lost = w.none_lost;
    outside = λ q x a o u l h. w.outside q x a u.0 o l h;
  }

  -- The directory and its entries stay where only other pages change.
  IsSpace-same :
      (m m' : Memory) (pgdir : ℕ) (ps : List ℕ)
      → ((j : ℕ) → j < 1024 → slot_of m' pgdir j ≡ slot_of m pgdir j)
      → IsSpace kernel_end m pgdir ps
      → IsSpace kernel_end m' pgdir ps
  IsSpace-same m m' pgdir ps f s = record {
    dir = s.dir;
    dir_not_free = s.dir_not_free;
    table = λ j hj h.
        subst (λ e. IsTable kernel_end pgdir ps (page_table e)) (sym (f j hj))
          (s.table j hj (subst (λ e. is_present e ≡ true) (f j hj) h));
    distinct = λ i j hi hj n u v c.
        s.distinct i j hi hj n (subst (λ e. is_present e ≡ true) (f i hi) u)
          (subst (λ e. is_present e ≡ true) (f j hj) v)
          (ap (λ e. page_table e) (sym (f i hi)) ∙ (c ∙ ap (λ e. page_table e) (f j hj)));
  }

  module _ (k : Kmem) (pgdir va w : ℕ) (ps : List ℕ) (s : IsSpace kernel_end k.mem pgdir ps)
      (c : IsFreeList kernel_end k ps) (h : is_present (slot_of k.mem pgdir (pdx va)) ≡ true)
      (hv : va < 2 ^ 32) (hw : w < 2 ^ 32) where
    -- The table of `va`, and the memory once its entry is `w`.
    abbrev t : ℕ
    t = page_table (slot_of k.mem pgdir (pdx va))

    abbrev m' : Memory
    m' = store_word k.mem (t + 4 * ptx va) w

    is_table : IsTable kernel_end pgdir ps t
    is_table = s.table (pdx va) (omega arith) h

    other_slot :
        (q j : ℕ)
        → q % page_size ≡ 0
        → j < 1024
        → (t ≢ q) ⊎ (ptx va ≢ j)
        → slot_of m' q j ≡ slot_of k.mem q j
    other_slot q j a hj d =
        slot_of-store_ne k.mem t (ptx va) q j w is_table.page.aligned a (omega arith) hj d

    dir_slot : (j : ℕ) → j < 1024 → slot_of m' pgdir j ≡ slot_of k.mem pgdir j
    dir_slot j hj = other_slot pgdir j s.dir.aligned hj (inl is_table.not_dir)

    entry_in :
        (x : ℕ)
        → is_present (slot_of k.mem pgdir (pdx x)) ≡ true
        → entry_of m' pgdir x ≡ slot_of m' (page_table (slot_of k.mem pgdir (pdx x))) (ptx x)
    entry_in x hx =
        let e = dir_slot (pdx x) (omega arith) in
        entry_of-present m' pgdir x (subst (λ y. is_present y ≡ true) (sym e) hx)
        ∙ ap (λ y. slot_of m' (page_table y) (ptx x)) e

    entry_self : entry_of m' pgdir va ≡ w
    entry_self = entry_in va h ∙ slot_of-store k.mem t (ptx va) w hw

    apart_by :
        (x : ℕ)
        → (pdx va ≢ pdx x) ⊎ (ptx va ≢ ptx x)
        → is_present (slot_of k.mem pgdir (pdx x)) ≡ true
        → (t ≢ page_table (slot_of k.mem pgdir (pdx x))) ⊎ (ptx va ≢ ptx x)
    apart_by x (inl n) hx = inl (s.distinct (pdx va) (pdx x) (omega arith) (omega arith) n h hx)
    apart_by x (inr n) hx = inr n

    entry_other :
        (x : ℕ) → (pdx va ≢ pdx x) ⊎ (ptx va ≢ ptx x) → entry_of m' pgdir x ≡ entry_of k.mem pgdir x
    entry_other x d = elim (Bool-cases (is_present (slot_of k.mem pgdir (pdx x)))) [
      | inr hx ↦
          entry_of-absent m' pgdir x
            (subst (λ y. is_present y ≡ false) (sym (dir_slot (pdx x) (omega arith))) hx)
          ∙ sym (entry_of-absent k.mem pgdir x hx)
      | inl hx ↦
          (let there = s.table (pdx x) (omega arith) hx in
            entry_in x hx
            ∙ (other_slot (page_table (slot_of k.mem pgdir (pdx x))) (ptx x) there.page.aligned
                  (omega arith) (apart_by x d hx)
                ∙ sym (entry_of-present k.mem pgdir x hx)))
    ]

    set_entries :
        (x : ℕ) → x < 2 ^ 32 → entry_of m' pgdir x ≡ entered (λ y. entry_of k.mem pgdir y) va w x
    set_entries x hx =
        if-cases (λ r. entry_of m' pgdir x ≡ r) (x / page_size == va / page_size) w
          (entry_of k.mem pgdir x)
          (λ e. entry_of-page m' pgdir x va (==→eq (x / page_size) (va / page_size) e) ∙ entry_self)
          (λ e. entry_other x (ground arith))

    -- A store of a word to an entry whose table is there changes the entry of its page and no other.
    pub set_pte-Changed :
        Changed k pgdir ps ps
          (set_pte k (t + 4 * ptx va) w)
          (entered (λ y. entry_of k.mem pgdir y) va w)
    set_pte-Changed = record {
      space = IsSpace-same k.mem m' pgdir ps dir_slot s;
      free =
          IsChain-same kernel_end ps k.mem m' k.freelist
            (λ q i.
              sym (slot_of-zero m' q)
              ∙ (other_slot q 0 (IsChain-IsPage kernel_end ps k.mem k.freelist q c i).aligned
                    (omega arith) (inl (IsOther-In t q ps is_table.not_free i))
                  ∙ slot_of-zero k.mem q))
            c;
      entries = set_entries;
      fewer = λ q o. o;
      tables = λ q o u. (
        u.0,
        λ j hj there.
            let e = dir_slot j hj in
            λ same.
              u.1 j hj (subst (λ y. is_present y ≡ true) e there)
                (ap (λ y. page_table y) (sym e) ∙ same),
      );
      none_lost = λ q o u. (
        o,
        (
          u.0,
          λ j hj there.
              let e = dir_slot j hj in
              λ same.
                u.1 j hj (subst (λ y. is_present y ≡ true) (sym e) there)
                  (ap (λ y. page_table y) e ∙ same),
        ),
      );
      outside = λ q x a o u l b.
          let far =
            apart q t x a is_table.page.aligned (λ e. u.1 (pdx va) (omega arith) h (sym e)) l b in
          store-outside k.mem t (ptx va) w x (omega arith) far;
    }
