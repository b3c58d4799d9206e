-- ===== src/Kalloc.antt =====
-- kalloc.c: the page allocator. The free list is threaded through the first words of the free pages
-- themselves, in the byte memory of Strings. A call runs under `kmem.lock` from start to end (before
-- `kinit2` there is one CPU and no lock), so it is one step. Addresses are 32-bit words.
pub mod Chain
pub mod Range
pub mod Tests
use ut_os.Base.{
  ℕ, zero, suc, ◌+◌, ◌-◌, ◌*◌, ◌/◌, ◌%◌, ◌==◌, Bool, true, false, ◌||◌, not, ltb, leb,
  if◌then◌else◌, Option, none, some, sub_word, wrap,
}
use ut_os.Strings.{Memory, memset, store_word}

abbrev pub page_size : ℕ
page_size = 4096

-- KERNBASE and PHYSTOP of memlayout.h.
abbrev pub kern_base : ℕ
kern_base = 0x80000000

abbrev pub phys_top : ℕ
phys_top = 0xE000000

-- V2P of memlayout.h.
abbrev pub v2p : ℕ → ℕ
v2p v = sub_word v kern_base

-- PGROUNDUP of mmu.h.
abbrev pub page_round_up : ℕ → ℕ
page_round_up a = wrap (a + page_size - 1) / page_size * page_size

-- A 32-bit load, the low byte first.
abbrev pub load_word : Memory → ℕ → ℕ
load_word m a = m a + m (a + 1) * 256 + m (a + 2) * 65536 + m (a + 3) * 16777216

pub record Kmem : Type 0 where
  pub mem : Memory
  pub use_lock : Bool
  pub freelist : ℕ

-- The page `v` filled with junk, and then with `next` in its first word.
pub link_page : Memory → ℕ → ℕ → Memory
link_page m v next = store_word (memset m v 1 page_size) v next

-- `kernel_end` is the address that the linker gives to `end`.
module _ (kernel_end : ℕ) where
  -- `none` is the panic of an address that is no free page's.
  pub kfree : Kmem → ℕ → Option Kmem
  kfree k v =
      if not (v % page_size == 0) || ltb v kernel_end || leb phys_top (v2p v)
      then none
      else some (record k { mem = link_page k.mem v k.freelist; freelist = v })

  -- The loop of `freerange`, with fuel.
  pub free_pages : ℕ → Kmem → ℕ → ℕ → Option Kmem
  free_pages zero k p vend = none
  free_pages (suc f) k p vend = elim (leb (p + page_size) vend) [
    | true ↦ elim (kfree k p) [ none ↦ none | some k' ↦ free_pages f k' (p + page_size) vend ]
    | false ↦ some k
  ]

  pub freerange : ℕ → Kmem → ℕ → ℕ → Option Kmem
  freerange fuel k vstart vend = free_pages fuel k (page_round_up vstart) vend

  pub kinit1 : ℕ → Kmem → ℕ → ℕ → Option Kmem
  kinit1 fuel k vstart vend = freerange fuel (record k { use_lock = false }) vstart vend

  pub kinit2 : ℕ → Kmem → ℕ → ℕ → Option Kmem
  kinit2 fuel k vstart vend = elim (freerange fuel k vstart vend) [
    | none ↦ none
    | some k' ↦ some (record k' { use_lock = true })
  ]

-- The page, or 0 where no page is free.
unfoldable pub kalloc : Kmem → Kmem × ℕ
kalloc k =
    let r = k.freelist in (if not (r == 0) then record k { freelist = load_word k.mem r } else k, r)
