-- ===== src/Kalloc/Range.antt =====
-- freerange of kalloc.c: which pages it frees.
use ut_os.Base.{
  ℕ, zero, suc, ◌+◌, ◌-◌, ◌*◌, ◌/◌, ◌%◌, ◌≤◌, ◌<◌, ◌^◌, ◌≡◌, refl, leb, Bool, true, false, ◌==◌,
  ◌&&◌, ◌||◌, ltb, some, List, [], ◌∷◌, IsOther, arith,
}
use ut_os.Kalloc.{Kmem, page_size, kern_base, phys_top, page_round_up, free_pages, freerange}
use ut_os.Kalloc.Chain.{IsPage, IsFreeList, kfree_lem}

-- The `n` pages from `p` on, the last one first, before the pages `ps`.
abbrev pub pages_onto : ℕ → ℕ → List ℕ → List ℕ
pages_onto p zero ps = ps
pages_onto p (suc n) ps = pages_onto (p + page_size) n (p ∷ ps)

pub contains : ℕ → List ℕ → Bool
contains q [] = false
contains q (p ∷ ps) = q == p || contains q ps

contains-pages_onto :
    (q p n : ℕ) (ps : List ℕ)
    → p % page_size ≡ 0
    → contains q (pages_onto p n ps)
      ≡ (q % page_size == 0 && leb p q && ltb q (p + page_size * n) || contains q ps)
unfolding contains
contains-pages_onto q p zero ps a = ground arith
contains-pages_onto q p (suc n) ps a =
    ground (arith, contains-pages_onto q (p + page_size) n (p ∷ ps) (omega arith))

-- Every page is below `p`.
abbrev pub IsBelow : ℕ → List ℕ → Type 0
IsBelow p [] = Unit {0}
IsBelow p (q ∷ qs) = (q < p) × IsBelow p qs

IsBelow-mono : (p q : ℕ) (ps : List ℕ) → p ≤ q → IsBelow p ps → IsBelow q ps
IsBelow-mono p q [] h b = tt
IsBelow-mono p q (x ∷ ps) h b = (omega arith, IsBelow-mono p q ps h b.1)

IsBelow-IsOther : (p : ℕ) (ps : List ℕ) → IsBelow p ps → IsOther p ps
IsBelow-IsOther p [] b = tt
IsBelow-IsOther p (x ∷ ps) b = (omega arith, IsBelow-IsOther p ps b.1)

module _ (kernel_end : ℕ) where
  -- The pages of a range that kernel and memory bound: the range lies above the kernel and below the
  -- top of physical memory.
  pub record IsRange (p vend : ℕ) : Type 0 where
    pub aligned : p % page_size ≡ 0
    pub behind_kernel : kernel_end ≤ p
    pub in_kernel_half : kern_base ≤ p
    pub below_top : vend ≤ kern_base + phys_top

  range-IsPage : (p vend : ℕ) → IsRange p vend → p + page_size ≤ vend → IsPage kernel_end p
  range-IsPage p vend r h = omega arith

  free_pages_lem :
      (fuel n p vend : ℕ) (k : Kmem) (ps : List ℕ)
      → IsRange p vend
      → n ≡ (vend - p) / page_size
      → n < fuel
      → IsBelow p ps
      → IsFreeList kernel_end k ps
      → (k' : Kmem) × (free_pages kernel_end fuel k p vend ≡ some k')
        × IsFreeList kernel_end k' (pages_onto p n ps)
  unfolding free_pages
  free_pages_lem zero n p vend k ps r e h b c = absurd (omega arith)
  free_pages_lem (suc f) zero p vend k ps r e h b c = (k, rw (le_false, free_pages) refl, c)
    where
      le_false : leb (p + page_size) vend ≡ false
      le_false = ground arith
  free_pages_lem (suc f) (suc n) p vend k ps r e h b c =
      let (k', freed, c', _) =
        kfree_lem kernel_end k p ps (range-IsPage p vend r (omega arith)) (IsBelow-IsOther p ps b)
          c in
      let (k2, ran, c2) =
        free_pages_lem f n (p + page_size) vend k' (p ∷ ps) (omega arith) (omega arith)
          (omega arith) (omega arith, IsBelow-mono p (p + page_size) ps (omega arith) b) c' in
      (k2, rw (le_true, freed, free_pages) ran, c2)
    where
      le_true : leb (p + page_size) vend ≡ true
      le_true = ground arith

  -- freerange over a range above the kernel and below the top of memory, with no page of `ps` in it or
  -- above it, returns and frees exactly the aligned pages that lie wholly within the range, whatever
  -- the alignment of its ends; `ps` stay free. Fuel for more rounds than there are pages below the end
  -- of the range is enough.
  pub freerange_lem :
      (fuel vstart vend : ℕ) (k : Kmem) (ps : List ℕ)
      → IsRange (page_round_up vstart) vend
      → vstart < 2 ^ 32
      → vend / page_size < fuel
      → IsBelow (page_round_up vstart) ps
      → IsFreeList kernel_end k ps
      → (k' : Kmem) × (qs : List ℕ) × (freerange kernel_end fuel k vstart vend ≡ some k')
        × IsFreeList kernel_end k' qs
        × ((q : ℕ)
            → contains q qs
              ≡ (q % page_size == 0 && leb vstart q && leb (q + page_size) vend || contains q ps))
  unfolding freerange
  freerange_lem fuel vstart vend k ps r w h b c =
      let p = page_round_up vstart in
      let n = (vend - p) / page_size in
      let (k', ran, c') = free_pages_lem fuel n p vend k ps r refl (omega arith) b c in
      (k', pages_onto p n ps, ran, c', λ q. ground (arith, contains-pages_onto q p n ps r.aligned))
