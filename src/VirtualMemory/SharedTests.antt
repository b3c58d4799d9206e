-- ===== src/VirtualMemory/SharedTests.antt =====
-- Shared pages at work.
use ut_os.Base.{
  [], ◌∷◌, ℕ, ◌+◌, ◌*◌, ◌%◌, ◌<◌, ◌^◌, ◌≡◌, ◌≢◌, refl, true, some, none, update, minus_one, arith,
}
use ut_os.Kalloc.{Kmem, kalloc, page_size, page_round_up}
use ut_os.Proc.{Proc, blank_proc}
use ut_os.VirtualMemory.{uva2ka, unmappages}
use ut_os.VirtualMemory.Entry.{is_present}
use ut_os.VirtualMemory.Space.{slot_of, entry_of}
use ut_os.VirtualMemory.Shared.{
  ShmTable, Shared, find_open, find_close, gain, lose, n_shared_pages, open_sharedmem,
  close_sharedmem,
}
use ut_os.VirtualMemory.Segments.{AreSingle}
use ut_os.VirtualMemory.Singles.{table_after, open_sharedmem-AreSingle, close_sharedmem-doubles}
use ut_os.VirtualMemory.Opening.{IsReady}
use ut_os.VirtualMemory.Disjoint.{IsDisjoint}
use ut_os.VirtualMemory.Sharing.{HasPages, open_sharedmem-shares}
use ut_os.VirtualMemory.Closing.{open_sharedmem-close_sharedmem}
use ut_os.VirtualMemory.Tests.{
  kernel_end, dir, other_dir, first_page, second_page, bytes, pages, in_range-IsPage, absent,
  free_pages, empty-IsSpace, empty_entry,
}

-- Two processes of three pages each.
abbrev process : Proc
process = record blank_proc { sz = 0x3000; pgdir = dir; kstack = 0x80480000; pid = 3 }

abbrev neighbour : Proc
neighbour = record blank_proc { sz = 0x2008; pgdir = other_dir; kstack = 0x80481000; pid = 4 }

process-IsReady : IsReady kernel_end pages process first_page (second_page ∷ [])
process-IsReady = record {
  kstack = omega arith;
  pid = omega arith;
  size = omega arith;
  unmapped = empty_entry dir (page_round_up 0x3000) refl (omega arith);
  space = empty-IsSpace dir refl (omega arith) (omega arith);
  free = free_pages;
}

neighbour-IsReady : IsReady kernel_end pages neighbour first_page (second_page ∷ [])
neighbour-IsReady = record {
  kstack = omega arith;
  pid = omega arith;
  size = omega arith;
  unmapped = empty_entry other_dir (page_round_up 0x2008) refl (omega arith);
  space = empty-IsSpace other_dir refl (omega arith) (omega arith);
  free = free_pages;
}

apart_dirs : IsDisjoint bytes dir other_dir
apart_dirs = (
  (omega arith, λ j hj p. absurd (not_present dir j refl (omega arith) hj p)),
  λ j hj p. absurd (not_present other_dir j refl (omega arith) hj p),
)
  where
    not_present :
        (d j : ℕ)
        → d % page_size ≡ 0
        → first_page ≢ d
        → j < 1024
        → is_present (slot_of bytes d j) ≡ true
        → ⊥
    not_present d j a n h p = ground (arith, absent d j a n h, p)

-- The table at boot: ten pages, none of them open.
abbrev table : ShmTable
table = record {
  id = λ i. 0;
  pa = λ i. 0x80410000 + i * page_size;
  ref_count = λ i. 0;
  va = λ pid i. 0;
}

table-AreSingle : AreSingle table
table-AreSingle i j hi hj n m e = absurd (n refl)

table-HasPages : HasPages kernel_end table
table-HasPages = record {
  page =
      λ i h. in_range-IsPage (0x80410000 + i * page_size) (omega arith) (omega arith) (omega arith);
  count = λ i h. omega arith;
}

last_found : find_open table 7 n_shared_pages 0 none ≡ some 9
unfolding find_open
last_found = refl

open_sharedmem-AreSingle_example :
    AreSingle (table_after table (open_sharedmem pages table process 7))
open_sharedmem-AreSingle_example = open_sharedmem-AreSingle pages table process 7 table-AreSingle

-- The id 7 has one user, in the entry 2; all other entries are free.
abbrev used : ShmTable
used = record table {
  id = update table.id 2 7;
  ref_count = update table.ref_count 2 1;
  va = update table.va 3 (update (table.va 3) 2 0x3000);
}

used-AreSingle : AreSingle used
used-AreSingle i j hi hj n m e = ground arith

used_entry : find_close used 7 n_shared_pages 0 ≡ some 2
unfolding find_close
used_entry = refl

next_entry : find_open (lose used 2) 7 n_shared_pages 0 none ≡ some 9
unfolding find_open
next_entry = refl

-- No page is left for a table.
abbrev empty_kmem : Kmem
empty_kmem = record { mem = λ x. 0; use_lock = true; freelist = 0 }

no_table : unmappages empty_kmem process.pgdir 0x3000 page_size ≡ some (minus_one, empty_kmem)
unfolding unmappages kalloc
no_table = refl

close_sharedmem-doubles_example :
    (s : Shared) × (close_sharedmem (λ u. gain u 7 9) empty_kmem used process 7 ≡ some s)
    × (s.result ≡ minus_one)
    × ¬ AreSingle s.table
close_sharedmem-doubles_example =
    close_sharedmem-doubles empty_kmem used process 7 2 9 empty_kmem used-AreSingle (omega arith)
      used_entry refl next_entry (omega arith) no_table

open_sharedmem-shares_example :
    (s : Shared) × ((s' : Shared) × ((open_sharedmem pages table process 7 ≡ some s)
        × ((open_sharedmem s.kmem s.table neighbour 7 ≡ some s')
            × ((uva2ka s'.kmem process.pgdir s.result ≡ table.pa 9)
                × (uva2ka s'.kmem neighbour.pgdir s'.result ≡ table.pa 9)))))
open_sharedmem-shares_example =
    open_sharedmem-shares kernel_end pages table process neighbour 7 9 first_page second_page []
      table-AreSingle table-HasPages last_found process-IsReady neighbour-IsReady apart_dirs

open_sharedmem-close_sharedmem_example :
    (s : Shared) × ((s' : Shared) × ((open_sharedmem pages table process 7 ≡ some s)
        × ((close_sharedmem (λ v. v) s.kmem s.table s.proc 7 ≡ some s')
            × ((s'.proc ≡ process)
                × (((j : ℕ) → s'.table.ref_count j ≡ table.ref_count j)
                    × ((x : ℕ)
                        → x < 2 ^ 32
                        → entry_of s'.kmem.mem process.pgdir x
                          ≡ entry_of pages.mem process.pgdir x))))))
open_sharedmem-close_sharedmem_example =
    open_sharedmem-close_sharedmem kernel_end pages table process 7 9 first_page (second_page ∷ [])
      table-AreSingle table-HasPages last_found process-IsReady
