-- ===== src/VirtualMemory/Freeing.antt =====
-- What deallocuvm of vm.c leaves, page by page.
use ut_os.Base.{
  ℕ, ◌+◌, ◌*◌, ◌/◌, ◌%◌, ◌≤◌, ◌<◌, ◌^◌, ◌≡◌, ◌≢◌, inl, inr, refl, sym, subst, ◌∙◌, ap, Bool,
  Bool-cases, true, false, ◌&&◌, ltb, leb, ==→eq, if◌then◌else◌, ◌==◌, some, List, [], ◌∷◌, In,
  IsOther, IsOther-In, arith,
}
use ut_os.Kalloc.{Kmem, page_size, kfree}
use ut_os.Kalloc.Chain.{IsPage, IsFreeList, kfree_lem}
use ut_os.VirtualMemory.Entry.{p2v, pdx, ptx, pte_addr, is_present}
use ut_os.VirtualMemory.{page_table, set_pte}
use ut_os.VirtualMemory.Space.{slot_of, entry_of, entry_of-page, IsApart, IsSpace}
use ut_os.VirtualMemory.Change.{Changed, entered, set_pte-Changed}
use ut_os.VirtualMemory.Calls.{table-present, present-nonzero}
use ut_os.VirtualMemory.Frames.{
  frame_of, IsWithin, freed-IsSpace, freed-entry_of, freed-IsApart, freed-IsApart_back, freed_dir,
}

skip_le : (x lo lo' : ℕ) → lo ≤ x → (b : Bool) → b ≡ true → (lo ≤ x → x < lo' → b ≡ false) → lo' ≤ x
skip_le x lo lo' l b p u = ground arith

skip_cleared :
    (e x lo lo' hi : ℕ)
    → lo ≤ lo'
    → (lo ≤ x → x < lo' → is_present e ≡ false)
    → (if is_present e && leb lo' x && ltb (x / page_size * page_size) hi then 0 else e)
      ≡ (if is_present e && leb lo x && ltb (x / page_size * page_size) hi then 0 else e)
skip_cleared e x lo lo' hi l u = ground arith

pub entered_other : (b : Bool) (e : ℕ) → b ≡ false → (if b then 0 else e) ≡ e
entered_other b e h = rw h refl

pub behind :
    (x lo : ℕ)
    → lo % page_size ≡ 0
    → lo ≤ x
    → (x / page_size == lo / page_size) ≡ false
    → lo + page_size ≤ x
behind x lo al l e = ground arith

pub ahead :
    (x lo : ℕ) → lo % page_size ≡ 0 → lo + page_size ≤ x → (x / page_size == lo / page_size) ≡ false
ahead x lo al l = ground arith

page_behind :
    (e x lo hi : ℕ)
    → lo % page_size ≡ 0
    → x / page_size ≢ lo / page_size
    → (if is_present e && leb (lo + page_size) x && ltb (x / page_size * page_size) hi
        then 0
        else e)
      ≡ (if is_present e && leb lo x && ltb (x / page_size * page_size) hi then 0 else e)
page_behind e x lo hi al n = ground arith

page_cleared :
    (e e2 x lo hi : ℕ)
    → lo % page_size ≡ 0
    → lo < hi
    → e2 ≡ (if x / page_size == lo / page_size then 0 else e)
    → (x / page_size ≡ lo / page_size → is_present e ≡ true)
    → (if is_present e2 && leb (lo + page_size) x && ltb (x / page_size * page_size) hi
        then 0
        else e2)
      ≡ (if is_present e && leb lo x && ltb (x / page_size * page_size) hi then 0 else e)
page_cleared e e2 x lo hi al h is_e p = elim (Bool-cases (x / page_size == lo / page_size)) [
  | inl b ↦
      (let same : x / page_size ≡ lo / page_size = ==→eq (x / page_size) (lo / page_size) b in
        let zero_now : e2 ≡ 0 = is_e ∙ (rw b refl) in
        let there = p same in rw (zero_now, there) (ground arith))
  | inr b ↦
      (let same : e2 ≡ e = is_e ∙ entered_other (x / page_size == lo / page_size) e b in
        rw same (page_behind e x lo hi al (ground arith)))
]

pub IsOther-sub :
    (q : ℕ) (xs ys : List ℕ) → ((x : ℕ) → In x xs → In x ys) → IsOther q ys → IsOther q xs
IsOther-sub q [] ys h o = tt
IsOther-sub q (x ∷ xs) ys h o =
    (IsOther-In q x ys o (h x (inl refl)), IsOther-sub q xs ys (λ z i. h z (inr i)) o)

module _ (kernel_end : ℕ) where
  -- The page of `a` freed, and its entry cleared.
  pub record PageFreed (k : Kmem) (d a : ℕ) (ps : List ℕ) (k1 k2 : Kmem) (pte : ℕ) : Type 0 where
    pub ran : kfree kernel_end k (frame_of k.mem d a) ≡ some k1
    pub is_set : k2 ≡ set_pte k1 pte 0
    pub space : IsSpace kernel_end k2.mem d (frame_of k.mem d a ∷ ps)
    pub free : IsFreeList kernel_end k2 (frame_of k.mem d a ∷ ps)
    pub entries :
        (x : ℕ) → x < 2 ^ 32 → entry_of k2.mem d x ≡ entered (λ y. entry_of k.mem d y) a 0 x
    pub tables :
        (q : ℕ) → IsOther q (frame_of k.mem d a ∷ ps) → IsApart k.mem d q → IsApart k2.mem d q
    pub tables_back :
        (q : ℕ) → IsOther q (frame_of k.mem d a ∷ ps) → IsApart k2.mem d q → IsApart k.mem d q

  pub page_freed :
      (k : Kmem) (d a : ℕ) (ps : List ℕ)
      → a < 2 ^ 32
      → IsSpace kernel_end k.mem d ps
      → IsFreeList kernel_end k ps
      → is_present (entry_of k.mem d a) ≡ true
      → IsPage kernel_end (frame_of k.mem d a)
      → IsOther (frame_of k.mem d a) ps
      → IsApart k.mem d (frame_of k.mem d a)
      → (k1 : Kmem) × ((k2 : Kmem) × PageFreed k d a ps k1 k2
            (page_table (slot_of k.mem d (pdx a)) + 4 * ptx a))
  page_freed k d a ps ha s c p page other apart =
      let v = frame_of k.mem d a in
      let (k1, ran, c1, out) = kfree_lem kernel_end k v ps page other c in
      let s1 = freed-IsSpace kernel_end k.mem k1.mem d v ps s apart page.aligned out in
      let e1 = freed-entry_of kernel_end k.mem k1.mem d v ps s apart page.aligned out in
      let t1 = freed-IsApart kernel_end k.mem k1.mem d v ps s apart page.aligned out in
      let back = freed-IsApart_back kernel_end k.mem k1.mem d v ps s apart page.aligned out in
      let dir =
        freed_dir kernel_end k.mem k1.mem d v ps s apart page.aligned out (pdx a) (omega arith) in
      let there = table-present k.mem d a (present-nonzero (entry_of k.mem d a) p) in
      let there1 = subst (λ y. is_present y ≡ true) (sym dir) there in
      let change = set_pte-Changed kernel_end k1 d a 0 (v ∷ ps) s1 c1 there1 ha (omega arith) in
      let pte = page_table (slot_of k.mem d (pdx a)) + 4 * ptx a in
      let same : page_table (slot_of k1.mem d (pdx a)) + 4 * ptx a ≡ pte =
        ap (λ y. page_table y + 4 * ptx a) dir in
      let change2 =
        subst
          (λ q.
            Changed kernel_end k1 d (v ∷ ps) (v ∷ ps) (set_pte k1 q 0)
              (entered (λ y. entry_of k1.mem d y) a 0))
          same change in
      (
        k1,
        (
          set_pte k1 pte 0,
          record {
            ran = ran;
            is_set = refl;
            space = change2.space;
            free = change2.free;
            entries = λ x l.
                change2.entries x l
                ∙ ap (λ e. if x / page_size == a / page_size then 0 else e) (e1 x);
            tables = λ q o u. change2.tables q o (t1 q u);
            tables_back = λ q o u. back q (change2.none_lost q o u).1;
          },
        ),
      )

  -- The entries with those of the pages from `lo` to `hi` that are present set to 0.
  abbrev pub cleared : (ℕ → ℕ) → ℕ → ℕ → ℕ → ℕ
  cleared g lo hi x =
      if is_present (g x) && leb lo x && ltb (x / page_size * page_size) hi then 0 else g x

  -- From `k` to `k'` the pages that are mapped from `lo` to `hi` are freed.
  pub record Deallocated (k : Kmem) (d lo hi : ℕ) (ps : List ℕ) (k' : Kmem) (ps' : List ℕ)
      : Type 0 where
    pub space : IsSpace kernel_end k'.mem d ps'
    pub free : IsFreeList kernel_end k' ps'
    pub entries :
        (x : ℕ) → x < 2 ^ 32 → entry_of k'.mem d x ≡ cleared (λ y. entry_of k.mem d y) lo hi x
    pub kept : (q : ℕ) → In q ps → In q ps'
    pub freed :
        (x : ℕ)
        → IsWithin lo hi x
        → is_present (entry_of k.mem d x) ≡ true
        → In (frame_of k.mem d x) ps'
    pub tables : (q : ℕ) → IsOther q ps' → IsApart k.mem d q → IsApart k'.mem d q
    pub tables_back : (q : ℕ) → IsOther q ps' → IsApart k'.mem d q → IsApart k.mem d q
    pub only :
        (q : ℕ)
        → IsOther q ps
        → ((x : ℕ)
            → IsWithin lo hi x
            → is_present (entry_of k.mem d x) ≡ true
            → frame_of k.mem d x ≢ q)
        → IsOther q ps'

  pub Deallocated-none :
      (k : Kmem) (d lo hi : ℕ) (ps : List ℕ)
      → hi ≤ lo
      → lo % page_size ≡ 0
      → IsSpace kernel_end k.mem d ps
      → IsFreeList kernel_end k ps
      → Deallocated k d lo hi ps k ps
  Deallocated-none k d lo hi ps h al s c = record {
    space = s;
    free = c;
    entries = λ x l. ground arith;
    kept = λ q i. i;
    freed = λ x w p. absurd (omega (arith, w.0, w.1));
    tables = λ q o u. u;
    tables_back = λ q o u. u;
    only = λ q o n. o;
  }

  -- A step over pages that are not mapped.
  pub Deallocated-skip :
      (k : Kmem) (d lo lo' hi : ℕ) (ps ps' : List ℕ) (k' : Kmem)
      → lo ≤ lo'
      → lo' % page_size ≡ 0
      → ((x : ℕ) → lo ≤ x → x < lo' → is_present (entry_of k.mem d x) ≡ false)
      → Deallocated k d lo' hi ps k' ps'
      → Deallocated k d lo hi ps k' ps'
  Deallocated-skip k d lo lo' hi ps ps' k' l al u r =
      let later = λ (x : ℕ) (w : IsWithin lo hi x) (p : is_present (entry_of k.mem d x) ≡ true).
        (let t : IsWithin lo' hi x =
            (skip_le x lo lo' w.0 (is_present (entry_of k.mem d x)) p (u x), w.1, w.2) in
          t) in
      record {
        space = r.space;
        free = r.free;
        entries = λ x h. r.entries x h ∙ skip_cleared (entry_of k.mem d x) x lo lo' hi l (u x);
        kept = r.kept;
        freed = λ x w p. r.freed x (later x w p) p;
        tables = r.tables;
        tables_back = r.tables_back;
        only = λ q o n. r.only q o (λ x w p. n x ((omega (arith, w.0)), w.1, w.2) p);
      }

  -- The first page is freed, and then those behind it.
  pub Deallocated-page :
      (k k1 k2 : Kmem) (d lo hi pte : ℕ) (ps ps' : List ℕ) (k' : Kmem)
      → lo % page_size ≡ 0
      → is_present (entry_of k.mem d lo) ≡ true
      → lo < hi
      → lo < 2 ^ 32
      → PageFreed k d lo ps k1 k2 pte
      → Deallocated k2 d (lo + page_size) hi (frame_of k.mem d lo ∷ ps) k' ps'
      → Deallocated k d lo hi ps k' ps'
  Deallocated-page k k1 k2 d lo hi pte ps ps' k' al p h hl f r = record {
    space = r.space;
    free = r.free;
    entries = λ x l.
        r.entries x l
        ∙ page_cleared (entry_of k.mem d x) (entry_of k2.mem d x) x lo hi al h (f.entries x l)
            (λ e. subst (λ y. is_present y ≡ true) (sym (entry_of-page k.mem d x lo e)) p);
    kept = λ q i. r.kept q (inr i);
    freed = λ x w q. elim (Bool-cases (x / page_size == lo / page_size)) [
      | inl e ↦
          subst (λ y. In (p2v (pte_addr y)) ps')
            (sym (entry_of-page k.mem d x lo (==→eq (x / page_size) (lo / page_size) e)))
            (r.kept (frame_of k.mem d lo) (inl refl))
      | inr e ↦
          (let same : entry_of k2.mem d x ≡ entry_of k.mem d x =
              f.entries x w.2
              ∙ entered_other (x / page_size == lo / page_size) (entry_of k.mem d x) e in
            subst (λ y. In (p2v (pte_addr y)) ps') same
              (r.freed x ((behind x lo al w.0 e), w.1, w.2)
                (subst (λ y. is_present y ≡ true) (sym same) q)))
    ];
    tables = λ q o u.
        r.tables q o (f.tables q (IsOther-sub q (frame_of k.mem d lo ∷ ps) ps' r.kept o) u);
    tables_back = λ q o u.
        f.tables_back q (IsOther-sub q (frame_of k.mem d lo ∷ ps) ps' r.kept o)
          (r.tables_back q o u);
    only = λ q o n.
        r.only q ((λ e. n lo ((omega arith), (omega arith), hl) p (sym e)), o)
          (λ x w c.
            (let e : (x / page_size == lo / page_size) ≡ false = ahead x lo al w.0 in
              let same : entry_of k2.mem d x ≡ entry_of k.mem d x =
                f.entries x w.2
                ∙ entered_other (x / page_size == lo / page_size) (entry_of k.mem d x) e in
              subst (λ y. p2v (pte_addr y) ≢ q) (sym same)
                (n x ((omega (arith, w.0)), w.1, w.2) (subst (λ y. is_present y ≡ true) same c))));
  }
