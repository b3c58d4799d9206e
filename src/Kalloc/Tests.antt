-- ===== src/Kalloc/Tests.antt =====
-- The page allocator at work.
use ut_os.Base.{ℕ, ◌+◌, ◌%◌, ◌≡◌, refl, true, ◌==◌, ◌&&◌, ◌||◌, leb, some, List, [], arith}
use ut_os.Kalloc.{Kmem, page_size, freerange}
use ut_os.Kalloc.Chain.{IsPage, IsFreeList}
use ut_os.Kalloc.Range.{contains, freerange_lem}

-- `end`, the end of the kernel.
abbrev kernel_end : ℕ
kernel_end = 0x80108000

abbrev full : Kmem
full = record { mem = λ x. 7; use_lock = true; freelist = 0 }

abbrev page : ℕ
page = 0x80400000

page-IsPage : IsPage kernel_end page
page-IsPage = record {
  aligned = refl;
  behind_kernel = omega arith;
  in_memory = omega arith;
  not_null = omega arith;
  word = omega arith;
}

abbrev one_page : Kmem
one_page = record { mem = λ x. 0; use_lock = true; freelist = page }

freerange_lem_example :
    (k' : Kmem) × (qs : List ℕ) × (freerange kernel_end 600000 full 0x803fff01 0x80402005 ≡ some k')
    × IsFreeList kernel_end k' qs
    × ((q : ℕ)
        → contains q qs ≡ (
            q % page_size == 0 && leb 0x803fff01 q && leb (q + page_size) 0x80402005
            || contains q []))
freerange_lem_example =
    freerange_lem kernel_end 600000 0x803fff01 0x80402005 full []
      (record {
        aligned = omega arith;
        behind_kernel = omega arith;
        in_kernel_half = omega arith;
        below_top = omega arith;
      })
      (omega arith) (omega arith) tt refl
