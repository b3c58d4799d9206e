-- ===== src/VirtualMemory.antt =====
-- vm.c: page tables. A page directory and its page tables are pages of the byte memory of Strings, at
-- their kernel addresses; the pages come from Kalloc. `none` is a panic, or fuel run out. What the
-- functions print, and the descriptor tables of a CPU, are left out.
pub mod Entry
pub mod User
pub mod Kernel
pub mod Shared
pub mod Load
pub mod Masks
pub mod Space
pub mod Walk
pub mod Find
pub mod Change
pub mod Rounds
pub mod Mapping
pub mod Calls
pub mod Segments
pub mod Disjoint
pub mod Opening
pub mod Singles
pub mod Sharing
pub mod Closing
pub mod Frames
pub mod Freeing
pub mod Dealloc
pub mod Growing
pub mod Growth
pub mod Undo
pub mod Alloc
pub mod Tests
pub mod SharedTests
use ut_os.Base.{
  ℕ, zero, suc, ◌+◌, ◌-◌, ◌*◌, ◌/◌, ◌%◌, ◌==◌, Bool, true, false, ◌||◌, not, ltb, leb, lt_int,
  if◌then◌else◌, Option, none, some, List, [], ◌∷◌, wrap, sub_word, minus_one,
}
use ut_os.Strings.{Memory, memset, memmove, store_word}
use ut_os.Kalloc.{
  Kmem, kalloc, kfree, page_size, kern_base, phys_top, v2p, page_round_up, load_word,
}
use Entry.{
  p2v, pdx, ptx, pgaddr, page_round_down, pte_addr, pte_flags, pte_p, pte_w, pte_u, is_present,
  is_user, without_user, or_word,
}

-- The table that a directory entry names, and what an entry for the table says.
abbrev pub page_table : ℕ → ℕ
page_table e = p2v (pte_addr e)

unfoldable pub table_entry : ℕ → ℕ
unfolding or_word
table_entry pgtab = or_word (or_word (or_word (v2p pgtab) pte_p) pte_w) pte_u

-- The address of the entry of `va`, or 0.
unfoldable pub walkpgdir : Kmem → ℕ → ℕ → Bool → Kmem × ℕ
unfolding table_entry
walkpgdir k pgdir va alloc =
    let pde = pgdir + 4 * pdx va in
    let e = load_word k.mem pde in
    elim (is_present e) [
      | true ↦ (k, page_table e + 4 * ptx va)
      | false ↦ elim alloc [
        | false ↦ (k, 0)
        | true ↦
            (let (k1, pgtab) = kalloc k in
              elim (pgtab == 0) [
                | true ↦ (k1, 0)
                | false ↦ (
                  record k1 {
                    mem = store_word (memset k1.mem pgtab 0 page_size) pde (table_entry pgtab);
                  },
                  pgtab + 4 * ptx va,
                )
              ])
      ]
    ]

-- `*pte = x`
abbrev pub set_pte : Kmem → ℕ → ℕ → Kmem
set_pte k pte x = record k { mem = store_word k.mem pte x }

-- The loop of `mappages`, with fuel: the pages from `a` to `last`.
unfoldable pub map_pages : ℕ → Kmem → ℕ → ℕ → ℕ → ℕ → ℕ → Option (ℕ × Kmem)
unfolding walkpgdir or_word
map_pages zero k pgdir a last pa perm = none
map_pages (suc f) k pgdir a last pa perm =
    let (k1, pte) = walkpgdir k pgdir a true in
    elim (pte == 0) [
      | true ↦ some (minus_one, k1)
      | false ↦ elim (is_present (load_word k1.mem pte)) [
        | true ↦ none
        | false ↦
            (let k2 = set_pte k1 pte (or_word (or_word pa perm) pte_p) in
              elim (a == last) [
                | true ↦ some (0, k2)
                | false ↦
                    map_pages f k2 pgdir (wrap (a + page_size)) last (wrap (pa + page_size)) perm
              ])
      ]
    ]

unfoldable pub mappages : Kmem → ℕ → ℕ → ℕ → ℕ → ℕ → Option (ℕ × Kmem)
unfolding map_pages
mappages k pgdir va size pa perm =
    let a = page_round_down va in
    let last = page_round_down (sub_word (wrap (va + size)) 1) in
    map_pages (suc (sub_word last a / page_size)) k pgdir a last pa perm

-- The loop of `unmappages`, with fuel. Its test `!*pte || !PTE_P` is that of `!*pte`.
unfoldable pub unmap_pages : ℕ → Kmem → ℕ → ℕ → ℕ → Option (ℕ × Kmem)
unfolding walkpgdir
unmap_pages zero k pgdir a last = none
unmap_pages (suc f) k pgdir a last =
    let (k1, pte) = walkpgdir k pgdir a true in
    elim (pte == 0) [
      | true ↦ some (minus_one, k1)
      | false ↦ elim (load_word k1.mem pte == 0 || pte_p == 0) [
        | true ↦ none
        | false ↦
            (let k2 = set_pte k1 pte 0 in
              elim (a == last) [
                | true ↦ some (0, k2)
                | false ↦ unmap_pages f k2 pgdir (wrap (a + page_size)) last
              ])
      ]
    ]

unfoldable pub unmappages : Kmem → ℕ → ℕ → ℕ → Option (ℕ × Kmem)
unfolding unmap_pages
unmappages k pgdir va size =
    let a = page_round_down va in
    let last = page_round_down (sub_word (wrap (va + size)) 1) in
    unmap_pages (suc (sub_word last a / page_size)) k pgdir a last

-- `*pte &= ~PTE_U` for the entry of `uva`.
unfoldable pub clearpteu : Kmem → ℕ → ℕ → Option Kmem
unfolding walkpgdir
clearpteu k pgdir uva =
    let (k1, pte) = walkpgdir k pgdir uva false in
    elim (pte == 0) [
      | true ↦ none
      | false ↦ some (set_pte k1 pte (without_user (load_word k1.mem pte)))
    ]

-- A null `pte` is read like any other address, as the code does.
unfoldable pub uva2ka : Kmem → ℕ → ℕ → ℕ
unfolding walkpgdir
uva2ka k pgdir uva =
    let (k1, pte) = walkpgdir k pgdir uva false in
    let e = load_word k1.mem pte in
    if not (is_present e) then 0 else (if not (is_user e) then 0 else p2v (pte_addr e))

-- The loop of `copyout`, with fuel: `len` bytes left, from `buf` on, to the user address `va`.
unfoldable pub copy_pages : ℕ → Kmem → ℕ → ℕ → ℕ → ℕ → Option (ℕ × Kmem)
unfolding uva2ka
copy_pages zero k pgdir va buf len = none
copy_pages (suc f) k pgdir va buf len = elim (ltb 0 len) [
  | false ↦ some (0, k)
  | true ↦
      (let va0 = page_round_down va in
        let pa0 = uva2ka k pgdir va0 in
        elim (pa0 == 0) [
          | true ↦ some (minus_one, k)
          | false ↦
              (let room = page_size - (va - va0) in
                let n = if ltb len room then len else room in
                let k1 = record k { mem = memmove k.mem (pa0 + (va - va0)) buf n } in
                copy_pages f k1 pgdir (wrap (va0 + page_size)) (buf + n) (len - n))
        ])
]

-- Each round but the last one copies a byte at least.
unfoldable pub copyout : Kmem → ℕ → ℕ → ℕ → ℕ → Option (ℕ × Kmem)
unfolding copy_pages
copyout k pgdir va p len = copy_pages (suc len) k pgdir va p len
