-- ===== src/Kalloc/Chain.antt =====
-- The free list as a list of pages, and what kfree and kalloc do to it.
use ut_os.Base.{
  ℕ, ◌+◌, ◌%◌, ◌≤◌, ◌<◌, ◌^◌, ◌≡◌, ◌≢◌, ◌⊎◌, refl, ◌↔◌, get_or, drop, ne→==, none, some, List, [],
  ◌∷◌, IsOther, arith,
}
use ut_os.Strings.{Memory}
use ut_os.Strings.Fill.{memset_lem}
use ut_os.Kalloc.{Kmem, page_size, phys_top, v2p, load_word, link_page, kfree, kalloc}

-- A page that the allocator may hand out.
pub record IsPage (kernel_end v : ℕ) : Type 0 where
  pub aligned : v % page_size ≡ 0
  pub behind_kernel : kernel_end ≤ v
  pub in_memory : v2p v < phys_top
  pub not_null : 0 < v
  pub word : v < 2 ^ 32

-- What kfree stores outside the page it frees: nothing.
link_page-other : (m : Memory) (v w x : ℕ) → (x < v) ⊎ (v + page_size ≤ x) → link_page m v w x ≡ m x
unfolding link_page
link_page-other m v w x h = ground (arith, memset_lem m v 1 page_size x)

load-link_page : (m : Memory) (v w : ℕ) → w < 2 ^ 32 → load_word (link_page m v w) v ≡ w
unfolding link_page
load-link_page m v w h = ground arith

load-link_page_ne :
    (m : Memory) (v w p : ℕ)
    → v % page_size ≡ 0
    → p % page_size ≡ 0
    → v ≢ p
    → load_word (link_page m v w) p ≡ load_word m p
load-link_page_ne m v w p a b h = rw (
  link_page-other m v w p (omega arith),
  link_page-other m v w (p + 1) (omega arith),
  link_page-other m v w (p + 2) (omega arith),
  link_page-other m v w (p + 3) (omega arith),
)

module _ (kernel_end : ℕ) where
  -- From `head` the links in memory lead through the pages `ps`, all of them different, to null.
  abbrev pub IsChain : Memory → ℕ → List ℕ → Type 0
  IsChain m head [] = head ≡ 0
  IsChain m head (p ∷ ps) =
      (head ≡ p) × IsPage kernel_end p × IsOther p ps × IsChain m (load_word m p) ps

  IsChain-kept :
      (ps : List ℕ) (m : Memory) (v w head : ℕ)
      → v % page_size ≡ 0
      → IsOther v ps
      → IsChain m head ps
      → IsChain (link_page m v w) head ps
  IsChain-kept [] m v w head a o c = c
  IsChain-kept (p ∷ ps) m v w head a o c = (
    c.0,
    c.1,
    c.2,
    rw (load-link_page_ne m v w p a c.1.aligned o.0)
        (IsChain-kept ps m v w (load_word m p) a o.1 c.3),
  )

  -- A free list that threads the pages `ps`.
  abbrev pub IsFreeList : Kmem → List ℕ → Type 0
  IsFreeList k ps = IsChain k.mem k.freelist ps

  IsChain-lt : (m : Memory) (head : ℕ) (ps : List ℕ) → IsChain m head ps → head < 2 ^ 32
  IsChain-lt m head [] c = omega arith
  IsChain-lt m head (p ∷ ps) c = omega (arith, c.0, c.1.word)

  -- kfree of a page that is not free succeeds, puts the page in front of the free pages, and keeps the
  -- free list a duplicate-free chain through memory. It changes no byte outside the page.
  pub kfree_lem :
      (k : Kmem) (v : ℕ) (ps : List ℕ)
      → IsPage kernel_end v
      → IsOther v ps
      → IsFreeList k ps
      → (k' : Kmem) × (kfree kernel_end k v ≡ some k')
        × IsFreeList k' (v ∷ ps)
        × ((x : ℕ) → (x < v) ⊎ (v + page_size ≤ x) → k'.mem x ≡ k.mem x)
  unfolding kfree
  kfree_lem k v ps pg o c = (
    record k { mem = link_page k.mem v k.freelist; freelist = v },
    ground arith,
    (
      refl,
      pg,
      o,
      rw (load-link_page k.mem v k.freelist (IsChain-lt k.mem k.freelist ps c))
          (IsChain-kept ps k.mem v k.freelist k.freelist pg.aligned o c),
    ),
    link_page-other k.mem v k.freelist,
  )

  -- kfree panics at an address that is no page's: one that is not aligned, lies below the end of the
  -- kernel or not below the top of memory.
  pub kfree_panics :
      (k : Kmem) (v : ℕ)
      → (v % page_size ≢ 0) ⊎ ((v < kernel_end) ⊎ (phys_top ≤ v2p v))
      → kfree kernel_end k v ≡ none
  unfolding kfree
  kfree_panics k v h = ground arith

  -- kalloc hands out the first free page and leaves the others free, in order; it returns 0 exactly
  -- when no page is free. It stores nothing.
  pub kalloc_lem :
      (k : Kmem) (ps : List ℕ)
      → IsFreeList k ps
      → let (k', r) = kalloc k in
        (r ≡ get_or ps 0 0) × IsFreeList k' (drop 1 ps) × ((r ≡ 0) ↔ (ps ≡ [])) × (k'.mem ≡ k.mem)
  unfolding kalloc
  kalloc_lem k [] c = ground arith
  kalloc_lem k (p ∷ ps) c = (
    c.0,
    rw (c.0, ne→== p 0 (omega (arith, c.1.not_null))) c.3,
    (λ e. absurd (omega (arith, c.0, c.1)), λ e. cc),
    ground arith,
  )
