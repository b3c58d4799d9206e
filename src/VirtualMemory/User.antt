-- ===== src/VirtualMemory/User.antt =====
-- vm.c: the pages of a process. `kernel_end` is the address that the linker gives to `end`. `none` is
-- a panic, or fuel run out.
use ut_os.Base.{
  ℕ, zero, suc, ◌+◌, ◌*◌, ◌/◌, ◌==◌, true, false, ltb, leb, lt_int, Option, none, some, wrap,
  sub_word,
}
use ut_os.Strings.{memset, memmove}
use ut_os.Kalloc.{Kmem, kalloc, kfree, page_size, kern_base, v2p, page_round_up, load_word}
use ut_os.VirtualMemory.{walkpgdir, mappages, set_pte, page_table}
use ut_os.VirtualMemory.Entry.{p2v, pdx, pgaddr, pte_addr, pte_w, pte_u, is_present, or_word}

-- NPDENTRIES of mmu.h.
abbrev pub n_pd_entries : ℕ
n_pd_entries = 1024

-- `init` is the kernel address of the code. The result of mappages is not looked at.
unfoldable pub inituvm : Kmem → ℕ → ℕ → ℕ → Option Kmem
unfolding mappages
inituvm k pgdir init sz = elim (leb page_size sz) [
  | true ↦ none
  | false ↦
      (let (k1, page) = kalloc k in
        let k2 = record k1 { mem = memset k1.mem page 0 page_size } in
        elim (mappages k2 pgdir 0 page_size (v2p page) (or_word pte_w pte_u)) [
          | none ↦ none
          | some r ↦ some (record r.1 { mem = memmove r.1.mem page init sz })
        ])
]

module _ (kernel_end : ℕ) where
  -- The loop of `deallocuvm`, with fuel.
  unfoldable pub dealloc_pages : ℕ → Kmem → ℕ → ℕ → ℕ → Option Kmem
  unfolding walkpgdir
  dealloc_pages zero k pgdir a oldsz = none
  dealloc_pages (suc f) k pgdir a oldsz = elim (ltb a oldsz) [
    | false ↦ some k
    | true ↦
        (let (k1, pte) = walkpgdir k pgdir a false in
          let e = load_word k1.mem pte in
          elim (pte == 0) [
            | true ↦
                dealloc_pages f k1 pgdir
                  (wrap (sub_word (pgaddr (pdx a + 1)) page_size + page_size)) oldsz
            | false ↦ elim (is_present e) [
              | false ↦ dealloc_pages f k1 pgdir (wrap (a + page_size)) oldsz
              | true ↦ elim (pte_addr e == 0) [
                | true ↦ none
                | false ↦ elim (kfree kernel_end k1 (p2v (pte_addr e))) [
                  | none ↦ none
                  | some k2 ↦ dealloc_pages f (set_pte k2 pte 0) pgdir (wrap (a + page_size)) oldsz
                ]
              ]
            ]
          ])
  ]

  -- No round ends below the address that the one before it ended at.
  unfoldable pub deallocuvm : Kmem → ℕ → ℕ → ℕ → Option (ℕ × Kmem)
  unfolding dealloc_pages
  deallocuvm k pgdir oldsz newsz = elim (leb oldsz newsz) [
    | true ↦ some (oldsz, k)
    | false ↦
        elim (dealloc_pages (suc (suc (oldsz / page_size))) k pgdir (page_round_up newsz) oldsz) [
          | none ↦ none
          | some k' ↦ some (newsz, k')
        ]
  ]

  -- The loop of `allocuvm`, with fuel. The result 0 is that of the two ways out of memory.
  unfoldable pub alloc_pages : ℕ → Kmem → ℕ → ℕ → ℕ → ℕ → Option (ℕ × Kmem)
  unfolding mappages deallocuvm
  alloc_pages zero k pgdir a oldsz newsz = none
  alloc_pages (suc f) k pgdir a oldsz newsz = elim (ltb a newsz) [
    | false ↦ some (newsz, k)
    | true ↦
        (let (k1, page) = kalloc k in
          elim (page == 0) [
            | true ↦ elim (deallocuvm k1 pgdir newsz oldsz) [ none ↦ none | some r ↦ some (0, r.1) ]
            | false ↦
                (let k2 = record k1 { mem = memset k1.mem page 0 page_size } in
                  elim (mappages k2 pgdir a page_size (v2p page) (or_word pte_w pte_u)) [
                    | none ↦ none
                    | some r ↦ elim (lt_int r.0 0) [
                      | true ↦ elim (deallocuvm r.1 pgdir newsz oldsz) [
                        | none ↦ none
                        | some s ↦ elim (kfree kernel_end s.1 page) [
                          | none ↦ none
                          | some k3 ↦ some (0, k3)
                        ]
                      ]
                      | false ↦ alloc_pages f r.1 pgdir (wrap (a + page_size)) oldsz newsz
                    ]
                  ])
          ])
  ]

  unfoldable pub allocuvm : Kmem → ℕ → ℕ → ℕ → Option (ℕ × Kmem)
  unfolding alloc_pages
  allocuvm k pgdir oldsz newsz = elim (leb kern_base newsz) [
    | true ↦ some (0, k)
    | false ↦ elim (ltb newsz oldsz) [
      | true ↦ some (oldsz, k)
      | false ↦
          alloc_pages (suc (suc (newsz / page_size))) k pgdir (page_round_up oldsz) oldsz newsz
    ]
  ]

  -- The loop of `freevm`: the `n` directory entries from `i` on.
  unfoldable pub free_tables : ℕ → Kmem → ℕ → ℕ → Option Kmem
  free_tables zero k pgdir i = some k
  free_tables (suc n) k pgdir i =
      let e = load_word k.mem (pgdir + 4 * i) in
      elim (is_present e) [
        | false ↦ free_tables n k pgdir (i + 1)
        | true ↦ elim (kfree kernel_end k (page_table e)) [
          | none ↦ none
          | some k1 ↦ free_tables n k1 pgdir (i + 1)
        ]
      ]

  unfoldable pub freevm : Kmem → ℕ → Option Kmem
  unfolding deallocuvm free_tables
  freevm k pgdir = elim (pgdir == 0) [
    | true ↦ none
    | false ↦ elim (deallocuvm k pgdir kern_base 0) [
      | none ↦ none
      | some r ↦ elim (free_tables n_pd_entries r.1 pgdir 0) [
        | none ↦ none
        | some k1 ↦ kfree kernel_end k1 pgdir
      ]
    ]
  ]
