-- ===== src/VirtualMemory/Find.antt =====
-- walkpgdir of vm.c, on each of its branches.
use ut_os.Base.{
  ℕ, ◌+◌, ◌*◌, ◌%◌, ◌≤◌, ◌<◌, ◌≡◌, ◌≢◌, ◌⊎◌, inl, inr, refl, sym, subst, ◌∙◌, ap, Bool, Bool-cases,
  true, false, ne→==, eq→==, if◌then◌else◌, List, [], ◌∷◌, IsOther, IsOther-In, drop, arith,
}
use ut_os.Strings.{Memory}
use ut_os.Kalloc.{Kmem, page_size, load_word, kalloc}
use ut_os.Kalloc.Chain.{IsChain, IsFreeList, kalloc_lem}
use ut_os.VirtualMemory.Entry.{pdx, ptx, is_present}
use ut_os.VirtualMemory.{page_table, walkpgdir}
use ut_os.VirtualMemory.Masks.{table_entry_lem}
use ut_os.VirtualMemory.Space.{slot_of, entry_of, IsChain-same, IsChain-IsPage, IsApart, IsSpace}
use ut_os.VirtualMemory.Walk.{
  fresh, fresh-outside, fresh-other, fresh-IsSpace, fresh-entry_of, new_slot, dir_cases,
}

module _ (k : Kmem) (pgdir va : ℕ) where
  pub walk-present :
      (alloc : Bool)
      → is_present (slot_of k.mem pgdir (pdx va)) ≡ true
      → walkpgdir k pgdir va alloc ≡ (k, page_table (slot_of k.mem pgdir (pdx va)) + 4 * ptx va)
  unfolding walkpgdir slot_of
  walk-present alloc h = rw (h, walkpgdir) refl

  pub walk-absent :
      is_present (slot_of k.mem pgdir (pdx va)) ≡ false → walkpgdir k pgdir va false ≡ (k, 0)
  unfolding walkpgdir slot_of
  walk-absent h = rw (h, walkpgdir) refl

  walk-full :
      is_present (slot_of k.mem pgdir (pdx va)) ≡ false
      → (kalloc k).1 ≡ 0
      → walkpgdir k pgdir va true ≡ ((kalloc k).0, 0)
  unfolding walkpgdir slot_of
  walk-full h e = rw (h, eq→== (kalloc k).1 0 e, walkpgdir) refl

  walk-new :
      is_present (slot_of k.mem pgdir (pdx va)) ≡ false
      → (kalloc k).1 ≢ 0
      → walkpgdir k pgdir va true ≡ (
        record (kalloc k).0 { mem = fresh (kalloc k).0.mem pgdir (pdx va) (kalloc k).1 },
        (kalloc k).1 + 4 * ptx va,
      )
  unfolding walkpgdir slot_of fresh
  walk-new h e = rw (h, ne→== (kalloc k).1 0 e, walkpgdir) refl

-- A byte of one page is outside another one.
pub apart :
    (q p x : ℕ)
    → q % page_size ≡ 0
    → p % page_size ≡ 0
    → q ≢ p
    → q ≤ x
    → x < q + page_size
    → (x < p) ⊎ (p + page_size ≤ x)
apart q p x a b n l u = ground arith

pub slot_of-zero : (m : Memory) (p : ℕ) → slot_of m p 0 ≡ load_word m p
unfolding slot_of
slot_of-zero m p = ground arith

-- The free pages that are left once the table of `va` is there.
abbrev pub left_free : Memory → ℕ → ℕ → List ℕ → List ℕ
left_free m pgdir va ps = if is_present (slot_of m pgdir (pdx va)) then ps else drop 1 ps

no_slot : (e : ℕ) → is_present e ≡ true → is_present e ≡ false → ⊥
no_slot e p q = cc

module _ (kernel_end : ℕ) where
  -- The entry of `va` is found: the tables stay well-formed, every entry stays as it is, and a page
  -- that is no longer free is a table.
  pub record Walked (k : Kmem) (pgdir va : ℕ) (ps ps' : List ℕ) (k' : Kmem) (pte : ℕ) : Type 0 where
    pub space : IsSpace kernel_end k'.mem pgdir ps'
    pub free : IsFreeList kernel_end k' ps'
    pub present : is_present (slot_of k'.mem pgdir (pdx va)) ≡ true
    pub pte_is : pte ≡ page_table (slot_of k'.mem pgdir (pdx va)) + 4 * ptx va
    pub entries : (x : ℕ) → entry_of k'.mem pgdir x ≡ entry_of k.mem pgdir x
    pub tables : (q : ℕ) → IsOther q ps → IsApart k.mem pgdir q → IsApart k'.mem pgdir q
    pub none_lost :
        (q : ℕ) → IsOther q ps' → IsApart k'.mem pgdir q → IsOther q ps × IsApart k.mem pgdir q
    pub outside :
        (q x : ℕ)
        → q % page_size ≡ 0
        → q ≢ pgdir
        → IsOther q ps
        → q ≤ x
        → x < q + page_size
        → k'.mem x ≡ k.mem x

  -- There is neither a table nor a page for one.
  pub record IsFull (k : Kmem) (pgdir va : ℕ) (ps : List ℕ) (k' : Kmem) (pte : ℕ) : Type 0 where
    pub no_page : ps ≡ []
    pub no_table : is_present (slot_of k.mem pgdir (pdx va)) ≡ false
    pub null : pte ≡ 0
    pub same : k'.mem ≡ k.mem
    pub still : IsFreeList kernel_end k' []

  Walked-new :
      (k k1 : Kmem) (pgdir va r : ℕ) (ps : List ℕ)
      → IsSpace kernel_end k.mem pgdir (r ∷ ps)
      → IsFreeList kernel_end k (r ∷ ps)
      → is_present (slot_of k.mem pgdir (pdx va)) ≡ false
      → k1.mem ≡ k.mem
      → IsFreeList kernel_end k1 ps
      → Walked k pgdir va
          (r ∷ ps)
          ps
          (record k1 { mem = fresh k1.mem pgdir (pdx va) r })
          (r + 4 * ptx va)
  Walked-new k k1 pgdir va r ps s c h e c1 =
      let hi : pdx va < 1024 = omega arith in
      let p = c.1 in
      let o = c.2 in
      let new = new_slot kernel_end k.mem pgdir (pdx va) r ps s p hi h o in
      let (there, is_r, _) = table_entry_lem r p.aligned p.word in
      rw e (record {
        space = fresh-IsSpace kernel_end k.mem pgdir (pdx va) r ps s p hi h o;
        free =
            IsChain-same kernel_end ps k.mem (fresh k.mem pgdir (pdx va) r) k1.freelist
              (λ q i.
                sym (slot_of-zero (fresh k.mem pgdir (pdx va) r) q)
                ∙ (fresh-other k.mem pgdir (pdx va) r s.dir.aligned p.aligned q 0
                      (IsChain-IsPage kernel_end ps k1.mem k1.freelist q c1 i).aligned hi
                      (omega arith) (λ w. IsOther-In r q ps o i (sym w))
                      (inl (IsOther-In pgdir q ps s.dir_not_free.1 i))
                    ∙ slot_of-zero k.mem q))
              (subst (λ (m : Memory). IsChain kernel_end m k1.freelist ps) e c1);
        present = subst (λ x. is_present x ≡ true) (sym new) there;
        pte_is = ap (λ t. t + 4 * ptx va) (sym is_r ∙ sym (ap (λ x. page_table x) new));
        entries = fresh-entry_of kernel_end k.mem pgdir (pdx va) r ps s p hi h o;
        tables = λ q other u. (
          u.0,
          λ j hj there'. elim (dir_cases kernel_end k.mem pgdir (pdx va) r ps s p hi h o j hj) [
            | inl (e, t) ↦ λ c. other.0 (sym c ∙ t)
            | inr (n, t) ↦ λ c.
                u.1 j hj (subst (λ x. is_present x ≡ true) t there')
                  (ap (λ x. page_table x) (sym t) ∙ c)
          ],
        );
        none_lost = λ q other u. (
          (
            λ c.
                u.1 (pdx va) hi (subst (λ x. is_present x ≡ true) (sym new) there)
                  (ap (λ x. page_table x) new ∙ (is_r ∙ sym c)),
            other,
          ),
          (
            u.0,
            λ j hj there'. elim (dir_cases kernel_end k.mem pgdir (pdx va) r ps s p hi h o j hj) [
              | inl (e, t) ↦ absurd (
                  no_slot (slot_of k.mem pgdir j) there'
                    (subst (λ x. is_present (slot_of k.mem pgdir x) ≡ false) e h))
              | inr (n, t) ↦ λ c.
                  u.1 j hj (subst (λ x. is_present x ≡ true) (sym t) there')
                    (ap (λ x. page_table x) t ∙ c)
            ],
          ),
        );
        outside = λ q x a n other l u.
            fresh-outside k.mem pgdir (pdx va) r x hi (apart q pgdir x a s.dir.aligned n l u)
              (apart q r x a p.aligned other.0 l u);
      })

  -- What walkpgdir leaves: an entry found, or no table and no page for one.
  abbrev pub WalkEnd : Kmem → ℕ → ℕ → List ℕ → Kmem → ℕ → Type 0
  WalkEnd k pgdir va ps k' pte =
      IsFull k pgdir va ps k' pte ⊎ Walked k pgdir va ps (left_free k.mem pgdir va ps) k' pte

  Walked-same :
      (k : Kmem) (pgdir va : ℕ) (ps : List ℕ)
      → IsSpace kernel_end k.mem pgdir ps
      → IsFreeList kernel_end k ps
      → is_present (slot_of k.mem pgdir (pdx va)) ≡ true
      → Walked k pgdir va ps ps k (page_table (slot_of k.mem pgdir (pdx va)) + 4 * ptx va)
  Walked-same k pgdir va ps s c h = record {
    space = s;
    free = c;
    present = h;
    pte_is = refl;
    entries = λ x. refl;
    tables = λ q o u. u;
    none_lost = λ q o u. (o, u);
    outside = λ q x a n o l u. refl;
  }

  left-same :
      (k : Kmem) (pgdir va : ℕ) (ps : List ℕ)
      → is_present (slot_of k.mem pgdir (pdx va)) ≡ true
      → ps ≡ left_free k.mem pgdir va ps
  left-same k pgdir va ps h = subst (λ b. ps ≡ (if b then ps else drop 1 ps)) (sym h) refl

  left-drop :
      (k : Kmem) (pgdir va : ℕ) (ps : List ℕ)
      → is_present (slot_of k.mem pgdir (pdx va)) ≡ false
      → drop 1 ps ≡ left_free k.mem pgdir va ps
  left-drop k pgdir va ps h = subst (λ b. drop 1 ps ≡ (if b then ps else drop 1 ps)) (sym h) refl

  walk_grown :
      (k : Kmem) (pgdir va : ℕ) (ps : List ℕ)
      → IsSpace kernel_end k.mem pgdir ps
      → IsFreeList kernel_end k ps
      → is_present (slot_of k.mem pgdir (pdx va)) ≡ false
      → let (k', pte) = walkpgdir k pgdir va true in WalkEnd k pgdir va ps k' pte
  walk_grown k pgdir va [] s c h =
      let (zero_page, still, _, same) = kalloc_lem kernel_end k [] c in
      rw (walk-full k pgdir va h zero_page)
        (inl (record { no_page = refl; no_table = h; null = refl; same = same; still = still }))
  walk_grown k pgdir va (r ∷ ps) s c h =
      let (head, still, _, same) = kalloc_lem kernel_end k (r ∷ ps) c in
      let nz : (kalloc k).1 ≢ 0 = omega (arith, head, c.1.not_null) in
      let new = Walked-new k (kalloc k).0 pgdir va r ps s c h same still in
      let k2 : Kmem = record (kalloc k).0 { mem = fresh (kalloc k).0.mem pgdir (pdx va) r } in
      rw (walk-new k pgdir va h nz, head)
        (inr (
          subst (λ l. Walked k pgdir va (r ∷ ps) l k2 (r + 4 * ptx va))
            (left-drop k pgdir va (r ∷ ps) h) new))

  -- walkpgdir with `alloc` finds the entry of an address, in a table that is there or in a new one that
  -- it takes from the free pages: the tables stay well-formed, and no entry of any address changes. It
  -- returns null only where there is neither a table nor a free page.
  pub walkpgdir_lem :
      (k : Kmem) (pgdir va : ℕ) (ps : List ℕ)
      → IsSpace kernel_end k.mem pgdir ps
      → IsFreeList kernel_end k ps
      → let (k', pte) = walkpgdir k pgdir va true in WalkEnd k pgdir va ps k' pte
  walkpgdir_lem k pgdir va ps s c = elim (Bool-cases (is_present (slot_of k.mem pgdir (pdx va)))) [
    | inl h ↦ rw (walk-present k pgdir va true h) (
        inr (
          subst
            (λ l. Walked k pgdir va ps l k (page_table (slot_of k.mem pgdir (pdx va)) + 4 * ptx va))
            (left-same k pgdir va ps h) (Walked-same k pgdir va ps s c h)))
    | inr h ↦ walk_grown k pgdir va ps s c h
  ]
