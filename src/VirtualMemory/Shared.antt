-- ===== src/VirtualMemory/Shared.antt =====
-- vm.c: the shared pages, and growproc of proc.c. A call takes the slot of the current process and
-- leaves it. `none` is a panic, or an access behind the table. A call of open_sharedmem runs here
-- without another process in between. close_sharedmem takes what other processes do to the table
-- between its two holds of the table's lock.
use ut_os.Base.{
  ℕ, zero, suc, ◌+◌, ◌==◌, true, false, ◌&&◌, ◌||◌, not, leb, lt_int, if◌then◌else◌, Option, none,
  some, update, wrap, sub_word, minus_one,
}
use ut_os.Kalloc.{Kmem, kalloc, page_size, v2p, page_round_up}
use ut_os.Proc.{nproc, Proc}
use ut_os.VirtualMemory.{mappages, unmappages}
use ut_os.VirtualMemory.Entry.{pte_w, pte_u, or_word}
use ut_os.VirtualMemory.User.{allocuvm, deallocuvm}

-- _NSHAREDPAGES of param.h.
abbrev pub n_shared_pages : ℕ
n_shared_pages = 10

-- `va` is indexed by the pid, below NPROC, and then by the entry. `id` of an entry that was never
-- opened is 0.
pub record ShmTable : Type 0 where
  pub id : ℕ → ℕ
  pub pa : ℕ → ℕ
  pub ref_count : ℕ → ℕ
  pub va : ℕ → ℕ → ℕ

-- switchuvm of a process that is there: the physical address that it loads as the page directory of
-- the CPU.
unfoldable pub switchuvm : Proc → Option ℕ
switchuvm p = if p.kstack == 0 || p.pgdir == 0 then none else some (v2p p.pgdir)

-- The loop of `_shared_mem_init`: the `n` entries from `i` on.
unfoldable pub fill_table : ℕ → ℕ → Kmem → ShmTable → Option (Kmem × ShmTable)
fill_table zero i k t = some (k, t)
fill_table (suc n) i k t =
    let (k1, page) = kalloc k in
    elim (page == 0) [
      | true ↦ none
      | false ↦
          fill_table n (i + 1) k1
            (record t { pa = update t.pa i page; ref_count = update t.ref_count i 0 })
    ]

unfoldable pub shared_mem_init : Kmem → ShmTable → Option (Kmem × ShmTable)
unfolding fill_table
shared_mem_init k t = fill_table n_shared_pages 0 k t

-- The scan of `open_sharedmem`: the `n` entries from `i` on, with the entry found so far.
unfoldable pub find_open : ShmTable → ℕ → ℕ → ℕ → Option ℕ → Option ℕ
find_open t id zero i found = found
find_open t id (suc n) i found = elim (t.ref_count i == 0) [
  | true ↦ find_open t id n (i + 1) (some i)
  | false ↦ elim (t.id i == id) [ true ↦ some i | false ↦ find_open t id n (i + 1) found ]
]

-- The scan of `close_sharedmem`.
unfoldable pub find_close : ShmTable → ℕ → ℕ → ℕ → Option ℕ
find_close t id zero i = none
find_close t id (suc n) i = elim (t.id i == id && not (t.ref_count i == 0)) [
  | true ↦ some i
  | false ↦ find_close t id n (i + 1)
]

-- What a call returns and leaves: the result, the pages, the table and the process.
pub record Shared : Type 0 where
  pub result : ℕ
  pub kmem : Kmem
  pub table : ShmTable
  pub proc : Proc

-- The two holds of the table's lock in open_sharedmem and close_sharedmem: an entry gets a user or
-- loses one, and gets it back when the page table could not be changed.
abbrev pub gain : ShmTable → ℕ → ℕ → ShmTable
gain t id i = record t {
  id = update t.id i id;
  ref_count = update t.ref_count i (wrap (t.ref_count i + 1));
}

abbrev pub lose : ShmTable → ℕ → ShmTable
lose t i = record t { ref_count = update t.ref_count i (sub_word (t.ref_count i) 1) }

abbrev pub regain : ShmTable → ℕ → ShmTable
regain t i = record t { ref_count = update t.ref_count i (wrap (t.ref_count i + 1)) }

unfoldable pub open_sharedmem : Kmem → ShmTable → Proc → ℕ → Option Shared
unfolding find_open mappages switchuvm
open_sharedmem k t p id =
    let va = page_round_up p.sz in
    elim (find_open t id n_shared_pages 0 none) [
      | none ↦ some (record { result = minus_one; kmem = k; table = t; proc = p })
      | some i ↦
          (let t1 = gain t id i in
            elim (mappages k p.pgdir va page_size (v2p (t.pa i)) (or_word pte_w pte_u)) [
              | none ↦ none
              | some r ↦ elim (lt_int r.0 0) [
                | true ↦
                    some (record { result = minus_one; kmem = r.1; table = lose t1 i; proc = p })
                | false ↦ elim (switchuvm p) [
                  | none ↦ none
                  | some cr3 ↦ elim (leb nproc p.pid) [
                    | true ↦ none
                    | false ↦ some (record {
                      result = va;
                      kmem = r.1;
                      table = record t1 { va = update t1.va p.pid (update (t1.va p.pid) i va) };
                      proc = record p { sz = wrap (p.sz + page_size) };
                    })
                  ]
                ]
              ]
            ])
    ]

-- `others` is what other processes do to the table behind the first hold.
unfoldable pub close_sharedmem : (ShmTable → ShmTable) → Kmem → ShmTable → Proc → ℕ → Option Shared
unfolding find_close unmappages switchuvm
close_sharedmem others k t p id = elim (find_close t id n_shared_pages 0) [
  | none ↦ some (record { result = minus_one; kmem = k; table = t; proc = p })
  | some i ↦
      (let t1 = others (lose t i) in
        elim (leb nproc p.pid) [
          | true ↦ none
          | false ↦ elim (unmappages k p.pgdir (t1.va p.pid i) page_size) [
            | none ↦ none
            | some r ↦ elim (lt_int r.0 0) [
              | true ↦
                  some (record { result = minus_one; kmem = r.1; table = regain t1 i; proc = p })
              | false ↦ elim (switchuvm p) [
                | none ↦ none
                | some cr3 ↦ some (record {
                  result = 0;
                  kmem = r.1;
                  table = t1;
                  proc = record p { sz = sub_word p.sz page_size };
                })
              ]
            ]
          ]
        ])
]

-- The end of growproc, from the result of allocuvm or deallocuvm.
abbrev pub end_grow : Proc → Option (ℕ × Kmem) → Option (ℕ × (Kmem × Proc))
end_grow p none = none
end_grow p (some r) = elim (r.0 == 0) [
  | true ↦ some (minus_one, (r.1, p))
  | false ↦ elim (switchuvm (record p { sz = r.0 })) [
    | none ↦ none
    | some cr3 ↦ some (0, (r.1, record p { sz = r.0 }))
  ]
]

unfoldable pub growproc : ℕ → Kmem → Proc → ℕ → Option (ℕ × (Kmem × Proc))
unfolding allocuvm deallocuvm switchuvm
growproc kernel_end k p n =
    if lt_int 0 n
    then end_grow p (allocuvm kernel_end k p.pgdir p.sz (wrap (p.sz + n)))
    else if lt_int n 0
    then end_grow p (deallocuvm kernel_end k p.pgdir p.sz (wrap (p.sz + n)))
    else (elim (switchuvm p) [ none ↦ none | some cr3 ↦ some (0, (k, p)) ])
