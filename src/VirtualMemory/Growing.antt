-- ===== src/VirtualMemory/Growing.antt =====
-- allocuvm of vm.c while it grows a process: what holds between two rounds.
use ut_os.Base.{
  ℕ, ◌+◌, ◌*◌, ◌/◌, ◌≤◌, ◌<◌, ◌^◌, ◌≡◌, ◌≢◌, ◌⊎◌, sym, subst, ◌∙◌, true, List, ◌∷◌, IsOther,
  IsOther-In, ap, ◌%◌, arith,
}
use ut_os.Strings.{Memory, memset}
use ut_os.Strings.Fill.{memset_lem}
use ut_os.Kalloc.{Kmem, page_size}
use ut_os.Kalloc.Chain.{IsFreeList, IsChain}
use ut_os.VirtualMemory.Entry.{p2v, pte_addr, is_present}
use ut_os.VirtualMemory.Space.{
  slot_of-memset_ne, entry_of, IsChain-same, IsChain-IsPage, IsApart, IsSpace,
}
use ut_os.VirtualMemory.Find.{slot_of-zero, apart}
use ut_os.VirtualMemory.Change.{Changed}
use ut_os.VirtualMemory.Frames.{
  frame_of, IsWithin, IsOwned, IsOwned-later, freed-IsSpace, freed-entry_of, freed-IsApart,
  freed-IsApart_back,
}

-- All bytes of the page are 0.
abbrev pub IsZero : Memory → ℕ → Type 0
IsZero m p = (y : ℕ) → p ≤ y → y < p + page_size → m y ≡ 0

cleared-outside :
    (m : Memory) (p x : ℕ) → (x < p) ⊎ (p + page_size ≤ x) → memset m p 0 page_size x ≡ m x
cleared-outside m p x h = ground (arith, memset_lem m p 0 page_size x)

pub cleared-IsZero : (m : Memory) (p : ℕ) → IsZero (memset m p 0 page_size) p
cleared-IsZero m p y l h = ground (arith, memset_lem m p 0 page_size y)

-- The memory and the free pages before the call.
pub record Before : Type 0 where
  pub mem : Memory
  pub pages : List ℕ

module _ (kernel_end : ℕ) where
  -- A free page is apart from the directory.
  pub free-IsApart :
      (m : Memory) (d p : ℕ) (ps : List ℕ) → IsSpace kernel_end m d (p ∷ ps) → IsApart m d p
  free-IsApart m d p ps s = ((λ e. s.dir_not_free.0 (sym e)), λ j hj h. (s.table j hj h).not_free.0)

  IsSpace-drop :
      (m : Memory) (d p : ℕ) (ps : List ℕ)
      → IsSpace kernel_end m d (p ∷ ps)
      → IsSpace kernel_end m d ps
  IsSpace-drop m d p ps s = record {
    dir = s.dir;
    dir_not_free = s.dir_not_free.1;
    table = λ j hj h.
        let t = s.table j hj h in
        record { page = t.page; not_free = t.not_free.1; not_dir = t.not_dir };
    distinct = s.distinct;
  }

  -- No page is lost: one that is not in the list, no table and not mapped from `lo` to `hi`, was none
  -- of the `pages`.
  abbrev pub Accounts : List ℕ → Memory → ℕ → ℕ → ℕ → List ℕ → Type 0
  Accounts pages m d lo hi ps =
      (q : ℕ)
      → IsOther q ps
      → IsApart m d q
      → ((x : ℕ) → IsWithin lo hi x → is_present (entry_of m d x) ≡ true → frame_of m d x ≢ q)
      → IsOther q pages

  -- From the entries of `was` the pages from `lo` to `a` have been mapped, for the user to read and
  -- write, to zeroed pages that were free before, on the way to `hi`.
  pub record Grown (was : Before) (k : Kmem) (d lo a hi : ℕ) (ps : List ℕ) : Type 0 where
    pub space : IsSpace kernel_end k.mem d ps
    pub free : IsFreeList kernel_end k ps
    pub entries :
        (x : ℕ)
        → x < 2 ^ 32
        → (x < lo) ⊎ (hi ≤ x / page_size * page_size)
        → entry_of k.mem d x ≡ entry_of was.mem d x
    pub unmapped : (x : ℕ) → IsWithin a hi x → entry_of k.mem d x ≡ 0
    pub owned : IsOwned kernel_end k.mem d ps lo hi
    pub mapped :
        (x : ℕ)
        → IsWithin lo hi x
        → x < a
        → (is_present (entry_of k.mem d x) ≡ true) × IsZero k.mem (frame_of k.mem d x)
    pub flags : (x : ℕ) → IsWithin lo hi x → x < a → entry_of k.mem d x % page_size ≡ 7
    pub fresh : (x : ℕ) → IsWithin lo hi x → x < a → ¬ IsOther (frame_of k.mem d x) was.pages
    pub fewer : (q : ℕ) → IsOther q was.pages → IsOther q ps

  module _ (was : Before) (k k1 : Kmem) (d lo a hi p : ℕ) (ps : List ℕ)
      (g : Grown was k d lo a hi (p ∷ ps)) (e : k1.mem ≡ k.mem)
      (c1 : IsFreeList kernel_end k1 ps) where
    entry_kept : (x : ℕ) → entry_of (memset k.mem p 0 page_size) d x ≡ entry_of k.mem d x
    entry_kept x =
        freed-entry_of kernel_end k.mem (memset k.mem p 0 page_size) d p (p ∷ ps) g.space
          (free-IsApart k.mem d p ps g.space) g.free.1.aligned (cleared-outside k.mem p) x

    -- A page taken from the free list and zeroed.
    pub Grown-taken : Grown was (record k1 { mem = memset k1.mem p 0 page_size }) d lo a hi ps
    Grown-taken =
        let ap_p = free-IsApart k.mem d p ps g.space in
        let al = g.free.1.aligned in
        let new = memset k.mem p 0 page_size in
        rw e (record {
          space = IsSpace-drop new d p ps (
              IsSpace-drop new d p (p ∷ ps) (
                freed-IsSpace kernel_end k.mem new d p (p ∷ ps) g.space ap_p al
                  (cleared-outside k.mem p)));
          free =
              IsChain-same kernel_end ps k.mem new k1.freelist
                (λ q i.
                  sym (slot_of-zero new q)
                  ∙ (slot_of-memset_ne k.mem p 0 q 0 al
                        (IsChain-IsPage kernel_end ps k1.mem k1.freelist q c1 i).aligned
                        (omega arith) (IsOther-In p q ps g.free.2 i)
                      ∙ slot_of-zero k.mem q))
                (subst (λ (m : Memory). IsChain kernel_end m k1.freelist ps) e c1);
          entries = λ x l o. entry_kept x ∙ g.entries x l o;
          unmapped = λ x w. entry_kept x ∙ g.unmapped x w;
          owned =
              IsOwned-later kernel_end k.mem new d (p ∷ ps) ps lo lo hi (omega arith) g.owned
                (λ x w. entry_kept x) (λ x w h. (g.owned.not_free x w h).1)
                (λ x w h.
                  freed-IsApart kernel_end k.mem new d p (p ∷ ps) g.space ap_p al
                    (cleared-outside k.mem p) (frame_of k.mem d x) (g.owned.not_table x w h));
          flags = λ x w l. ap (λ y. y % page_size) (entry_kept x) ∙ g.flags x w l;
          fresh = λ x w l.
              subst (λ y. ¬ IsOther (p2v (pte_addr y)) was.pages) (sym (entry_kept x))
                (g.fresh x w l);
          fewer = λ q o. (g.fewer q o).1;
          mapped = λ x w l.
              let (there, zeros) = g.mapped x w l in
              let n = (g.owned.not_free x w there).0 in
              let pg = g.owned.page x w there in
              (
                subst (λ y. is_present y ≡ true) (sym (entry_kept x)) there,
                subst (λ y. IsZero new (p2v (pte_addr y))) (sym (entry_kept x))
                    (λ y u h.
                      cleared-outside k.mem p y (apart (frame_of k.mem d x) p y pg.aligned al n u h)
                      ∙ zeros y u h),
              );
        })

    pub taken-Accounts :
        Accounts was.pages k.mem d lo hi (p ∷ ps)
        → Accounts was.pages (memset k1.mem p 0 page_size) d lo hi (p ∷ ps)
    taken-Accounts account = rw e (λ q o u n.
        account q o
          (freed-IsApart_back kernel_end k.mem (memset k.mem p 0 page_size) d p (p ∷ ps) g.space
            (free-IsApart k.mem d p ps g.space) g.free.1.aligned (cleared-outside k.mem p) q u)
          (λ x w h.
            subst (λ y. p2v (pte_addr y) ≢ q) (entry_kept x)
              (n x w (subst (λ y. is_present y ≡ true) (sym (entry_kept x)) h))))

    pub taken-IsApart : IsApart (memset k1.mem p 0 page_size) d p
    taken-IsApart = rw e (
        freed-IsApart kernel_end k.mem (memset k.mem p 0 page_size) d p (p ∷ ps) g.space
          (free-IsApart k.mem d p ps g.space) g.free.1.aligned (cleared-outside k.mem p) p
          (free-IsApart k.mem d p ps g.space))

    -- No page mapped so far is the one taken.
    pub taken-frames :
        (x : ℕ)
        → IsWithin lo hi x
        → is_present (entry_of (memset k1.mem p 0 page_size) d x) ≡ true
        → frame_of (memset k1.mem p 0 page_size) d x ≢ p
    taken-frames x w =
        subst
          (λ (m : Memory).
            is_present (entry_of (memset m p 0 page_size) d x) ≡ true
            → frame_of (memset m p 0 page_size) d x ≢ p)
          (sym e)
          (λ h.
            subst (λ y. p2v (pte_addr y) ≢ p) (sym (entry_kept x))
              (g.owned.not_free x w (subst (λ y. is_present y ≡ true) (entry_kept x) h)).0)

  pub Grown-same :
      (was : Before) (k k1 : Kmem) (d lo a hi : ℕ) (ps : List ℕ)
      → k1.mem ≡ k.mem
      → IsFreeList kernel_end k1 ps
      → Grown was k d lo a hi ps
      → Grown was k1 d lo a hi ps
  Grown-same was k k1 d lo a hi ps e c g = record {
    space = subst (λ (m : Memory). IsSpace kernel_end m d ps) (sym e) g.space;
    free = c;
    entries =
        subst
          (λ (m : Memory).
            (x : ℕ)
            → x < 2 ^ 32
            → (x < lo) ⊎ (hi ≤ x / page_size * page_size)
            → entry_of m d x ≡ entry_of was.mem d x)
          (sym e) g.entries;
    unmapped =
        subst (λ (m : Memory). (x : ℕ) → IsWithin a hi x → entry_of m d x ≡ 0) (sym e) g.unmapped;
    owned = subst (λ (m : Memory). IsOwned kernel_end m d ps lo hi) (sym e) g.owned;
    flags =
        subst (λ (m : Memory). (x : ℕ) → IsWithin lo hi x → x < a → entry_of m d x % page_size ≡ 7)
          (sym e) g.flags;
    fresh =
        subst
          (λ (m : Memory).
            (x : ℕ) → IsWithin lo hi x → x < a → ¬ IsOther (frame_of m d x) was.pages)
          (sym e) g.fresh;
    fewer = g.fewer;
    mapped =
        subst
          (λ (m : Memory).
            (x : ℕ)
            → IsWithin lo hi x
            → x < a
            → (is_present (entry_of m d x) ≡ true) × IsZero m (frame_of m d x))
          (sym e) g.mapped;
  }

  -- Changes that leave every entry leave what has grown.
  pub Grown-changed :
      (was : Before) (k k1 : Kmem) (d lo a hi : ℕ) (ps ps' : List ℕ)
      → Changed kernel_end k d ps ps' k1 (λ x. entry_of k.mem d x)
      → Grown was k d lo a hi ps
      → Grown was k1 d lo a hi ps'
  Grown-changed was k k1 d lo a hi ps ps' c g = record {
    space = c.space;
    free = c.free;
    entries = λ x l o. c.entries x l ∙ g.entries x l o;
    unmapped = λ x w. c.entries x w.2 ∙ g.unmapped x w;
    owned =
        IsOwned-later kernel_end k.mem k1.mem d ps ps' lo lo hi (omega arith) g.owned
          (λ x w. c.entries x w.2) (λ x w h. c.fewer (frame_of k.mem d x) (g.owned.not_free x w h))
          (λ x w h.
            c.tables (frame_of k.mem d x) (g.owned.not_free x w h) (g.owned.not_table x w h));
    flags = λ x w l. ap (λ y. y % page_size) (c.entries x w.2) ∙ g.flags x w l;
    fresh = λ x w l.
        subst (λ y. ¬ IsOther (p2v (pte_addr y)) was.pages) (sym (c.entries x w.2)) (g.fresh x w l);
    fewer = λ q o. c.fewer q (g.fewer q o);
    mapped = λ x w l.
        let (there, zeros) = g.mapped x w l in
        let f = frame_of k.mem d x in
        (
          subst (λ y. is_present y ≡ true) (sym (c.entries x w.2)) there,
          subst (λ y. IsZero k1.mem (p2v (pte_addr y))) (sym (c.entries x w.2))
              (λ y i j.
                c.outside f y (g.owned.page x w there).aligned (g.owned.not_free x w there)
                  (g.owned.not_table x w there) i j
                ∙ zeros y i j),
        );
  }

  pub changed-Accounts :
      (pages : List ℕ) (k k1 : Kmem) (d lo hi p : ℕ) (ps ps' : List ℕ)
      → Changed kernel_end k d ps ps' k1 (λ x. entry_of k.mem d x)
      → Accounts pages k.mem d lo hi (p ∷ ps)
      → Accounts pages k1.mem d lo hi (p ∷ ps')
  changed-Accounts pages k k1 d lo hi p ps ps' c account q o u n =
      let (o1, u1) = c.none_lost q o.1 u in
      account q (o.0, o1) u1
        (λ x w h.
          subst (λ y. p2v (pte_addr y) ≢ q) (c.entries x w.2)
            (n x w (subst (λ y. is_present y ≡ true) (sym (c.entries x w.2)) h)))
