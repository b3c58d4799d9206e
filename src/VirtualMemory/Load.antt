-- ===== src/VirtualMemory/Load.antt =====
-- vm.c: a segment of a program read from its file into the pages of a process. `none` is a panic, or
-- fuel run out.
use ut_os.Base.{
  ℕ, zero, suc, ◌+◌, ◌-◌, ◌/◌, ◌%◌, ◌==◌, Bool, true, false, ltb, if◌then◌else◌, Option, none, some,
  wrap, minus_one,
}
use ut_os.Strings.{Memory}
use ut_os.Kalloc.{Kmem, page_size, load_word}
use ut_os.FileSystem.{Superblock, Blocks}
use ut_os.FileSystem.Inode.{Inode}
use ut_os.FileSystem.Content.{readi}
use ut_os.VirtualMemory.{walkpgdir}
use ut_os.VirtualMemory.Entry.{p2v, pte_addr}

module _ (sb : Superblock) (has : ℕ → Bool)
    (dev_read : ℕ → Inode → ℕ → ℕ → Memory → ℕ × Memory) where
  -- The loop of `loaduvm`, with fuel: the pages from `i` on.
  unfoldable pub load_pages :
      ℕ → Kmem → Inode → Blocks → ℕ → ℕ → ℕ → ℕ → ℕ → Option (ℕ × (Kmem × (Inode × Blocks)))
  unfolding walkpgdir readi
  load_pages zero k ip blocks pgdir addr offset i sz = none
  load_pages (suc f) k ip blocks pgdir addr offset i sz = elim (ltb i sz) [
    | false ↦ some (0, (k, (ip, blocks)))
    | true ↦
        (let (k1, pte) = walkpgdir k pgdir (wrap (addr + i)) false in
          elim (pte == 0) [
            | true ↦ none
            | false ↦
                (let n = if ltb (sz - i) page_size then sz - i else page_size in
                  let pa = pte_addr (load_word k1.mem pte) in
                  elim (readi sb has dev_read ip blocks k1.mem (p2v pa) (wrap (offset + i)) n) [
                    | none ↦ none
                    | some r ↦
                        (let k2 = record k1 { mem = r.1.1.1 } in
                          elim (r.0 == n) [
                            | false ↦ some (minus_one, (k2, (r.1.0, r.1.1.0)))
                            | true ↦
                                load_pages f k2 r.1.0 r.1.1.0 pgdir addr offset
                                  (wrap (i + page_size)) sz
                          ])
                  ])
          ])
  ]

  unfoldable pub loaduvm :
      Kmem → Inode → Blocks → ℕ → ℕ → ℕ → ℕ → Option (ℕ × (Kmem × (Inode × Blocks)))
  unfolding load_pages
  loaduvm k ip blocks pgdir addr offset sz = elim (addr % page_size == 0) [
    | false ↦ none
    | true ↦ load_pages (suc (suc (sz / page_size))) k ip blocks pgdir addr offset 0 sz
  ]
