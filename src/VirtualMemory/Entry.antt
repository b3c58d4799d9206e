-- ===== src/VirtualMemory/Entry.antt =====
-- mmu.h and memlayout.h: the parts of an address and of a page table entry. A bit mask is written by
-- division: the low 12 bits of `a` are `a % 4096`.
use ut_os.Base.{ℕ, zero, suc, ◌+◌, ◌-◌, ◌*◌, ◌/◌, ◌%◌, ◌==◌, Bool, ◌||◌, not, if◌then◌else◌, wrap}
use ut_os.Kalloc.{page_size, kern_base}

-- P2V of memlayout.h.
abbrev pub p2v : ℕ → ℕ
p2v a = wrap (a + kern_base)

abbrev pub pdx : ℕ → ℕ
pdx va = va / 4194304 % 1024

abbrev pub ptx : ℕ → ℕ
ptx va = va / page_size % 1024

-- PGADDR with no table index and no offset.
abbrev pub pgaddr : ℕ → ℕ
pgaddr d = wrap (d * 4194304)

abbrev pub page_round_down : ℕ → ℕ
page_round_down a = a / page_size * page_size

abbrev pub pte_addr : ℕ → ℕ
pte_addr e = e / page_size * page_size

abbrev pub pte_flags : ℕ → ℕ
pte_flags e = e % page_size

-- PTE_P, PTE_W and PTE_U, and the tests `e & PTE_P` and `e & PTE_U`.
abbrev pub pte_p : ℕ
pte_p = 1

abbrev pub pte_w : ℕ
pte_w = 2

abbrev pub pte_u : ℕ
pte_u = 4

abbrev pub is_present : ℕ → Bool
is_present e = not (e % 2 == 0)

abbrev pub is_user : ℕ → Bool
is_user e = not (e / 4 % 2 == 0)

-- `e & ~PTE_U`
abbrev pub without_user : ℕ → ℕ
without_user e = if is_user e then e - pte_u else e

abbrev or_bit : ℕ → ℕ → ℕ
or_bit a b = if a % 2 == 1 || b % 2 == 1 then 1 else 0

-- The low `w` bits of `a | b`.
unfoldable pub or_bits : ℕ → ℕ → ℕ → ℕ
or_bits zero a b = 0
or_bits (suc w) a b = or_bit a b + 2 * or_bits w (a / 2) (b / 2)

-- `a | b` of two words.
unfoldable pub or_word : ℕ → ℕ → ℕ
unfolding or_bits
or_word a b = or_bits 32 a b
