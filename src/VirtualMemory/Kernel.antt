-- ===== src/VirtualMemory/Kernel.antt =====
-- vm.c: the page table of the kernel, and the copy of a process for fork. `kernel_end` and
-- `kernel_data` are the addresses that the linker gives to `end` and `data`. `none` is a panic, or
-- fuel run out.
use ut_os.Base.{
  ℕ, zero, suc, ◌+◌, ◌/◌, ◌==◌, true, false, ltb, lt_int, Option, none, some, List, [], ◌∷◌, wrap,
  sub_word,
}
use ut_os.Strings.{memset, memmove}
use ut_os.Kalloc.{Kmem, kalloc, kfree, page_size, kern_base, phys_top, v2p, load_word}
use ut_os.VirtualMemory.{walkpgdir, mappages}
use ut_os.VirtualMemory.Entry.{p2v, pte_addr, pte_flags, pte_w, is_present}
use ut_os.VirtualMemory.User.{freevm}

-- EXTMEM and DEVSPACE of memlayout.h.
abbrev pub ext_mem : ℕ
ext_mem = 0x100000

abbrev pub dev_space : ℕ
dev_space = 0xFE000000

pub record Kmap : Type 0 where
  pub virt : ℕ
  pub phys_start : ℕ
  pub phys_end : ℕ
  pub perm : ℕ

-- `kmap`
abbrev pub kernel_map : ℕ → List Kmap
kernel_map kernel_data =
    record { virt = kern_base; phys_start = 0; phys_end = ext_mem; perm = pte_w }
    ∷ record {
      virt = kern_base + ext_mem;
      phys_start = v2p (kern_base + ext_mem);
      phys_end = v2p kernel_data;
      perm = 0;
    }
    ∷ record { virt = kernel_data; phys_start = v2p kernel_data; phys_end = phys_top; perm = pte_w }
    ∷ record { virt = dev_space; phys_start = dev_space; phys_end = 0; perm = pte_w }
    ∷ []

module _ (kernel_end kernel_data : ℕ) where
  -- The loop of `setupkvm`; the result is the directory, or 0 once it is freed.
  unfoldable pub map_kernel : List Kmap → Kmem → ℕ → Option (ℕ × Kmem)
  unfolding mappages freevm
  map_kernel [] k pgdir = some (pgdir, k)
  map_kernel (m ∷ ms) k pgdir =
      elim (mappages k pgdir m.virt (sub_word m.phys_end m.phys_start) m.phys_start m.perm) [
        | none ↦ none
        | some r ↦ elim (lt_int r.0 0) [
          | false ↦ map_kernel ms r.1 pgdir
          | true ↦ elim (freevm kernel_end r.1 pgdir) [ none ↦ none | some k1 ↦ some (0, k1) ]
        ]
      ]

  unfoldable pub setupkvm : Kmem → Option (ℕ × Kmem)
  unfolding map_kernel
  setupkvm k =
      let (k1, pgdir) = kalloc k in
      elim (pgdir == 0) [
        | true ↦ some (0, k1)
        | false ↦ elim (ltb dev_space (p2v phys_top)) [
          | true ↦ none
          | false ↦
              map_kernel (kernel_map kernel_data)
                (record k1 { mem = memset k1.mem pgdir 0 page_size }) pgdir
        ]
      ]

  -- `bad` of `copyuvm`.
  abbrev pub undo_copy : Kmem → ℕ → Option (ℕ × Kmem)
  undo_copy k d = elim (freevm kernel_end k d) [ none ↦ none | some k1 ↦ some (0, k1) ]

  -- The loop of `copyuvm`, with fuel: the pages from `i` on, into the directory `d`.
  unfoldable pub copy_user : ℕ → Kmem → ℕ → ℕ → ℕ → ℕ → Option (ℕ × Kmem)
  unfolding walkpgdir mappages freevm
  copy_user zero k pgdir d i sz = none
  copy_user (suc f) k pgdir d i sz = elim (ltb i sz) [
    | false ↦ some (d, k)
    | true ↦
        (let (k0, pte) = walkpgdir k pgdir i false in
          let e = load_word k0.mem pte in
          elim (pte == 0) [
            | true ↦ none
            | false ↦ elim (is_present e) [
              | false ↦ none
              | true ↦
                  (let (k1, page) = kalloc k0 in
                    elim (page == 0) [
                      | true ↦ undo_copy k1 d
                      | false ↦
                          (let k2 = record k1 {
                            mem = memmove k1.mem page (p2v (pte_addr e)) page_size;
                          } in
                            elim (mappages k2 d i page_size (v2p page) (pte_flags e)) [
                              | none ↦ none
                              | some r ↦ elim (lt_int r.0 0) [
                                | false ↦ copy_user f r.1 pgdir d (wrap (i + page_size)) sz
                                | true ↦ elim (kfree kernel_end r.1 page) [
                                  | none ↦ none
                                  | some k3 ↦ undo_copy k3 d
                                ]
                              ]
                            ])
                    ])
            ]
          ])
  ]

  unfoldable pub copyuvm : Kmem → ℕ → ℕ → Option (ℕ × Kmem)
  unfolding setupkvm copy_user
  copyuvm k pgdir sz = elim (setupkvm k) [
    | none ↦ none
    | some r ↦ elim (r.0 == 0) [
      | true ↦ some (0, r.1)
      | false ↦ copy_user (suc (suc (sz / page_size))) r.1 pgdir r.0 0 sz
    ]
  ]

  -- kvmalloc: the directory of the kernel, and the physical address that switchkvm loads for it.
  unfoldable pub kvmalloc : Kmem → Option ((ℕ × ℕ) × Kmem)
  unfolding setupkvm
  kvmalloc k = elim (setupkvm k) [ none ↦ none | some r ↦ some ((r.0, v2p r.0), r.1) ]
