-- ===== src/VirtualMemory/Masks.antt =====
-- The ors of vm.c: of an aligned address with flags below it, and of single bits.
use ut_os.Base.{
  ℕ, zero, suc, ◌+◌, ◌*◌, ◌/◌, ◌%◌, ◌≤◌, ◌<◌, ◌^◌, ◌≡◌, refl, true, ◌==◌, ◌||◌, if◌then◌else◌,
  arith,
}
use ut_os.Kalloc.{page_size, v2p}
use ut_os.VirtualMemory.Entry.{pte_addr, pte_flags, pte_p, is_present, or_bits, or_word}
use ut_os.VirtualMemory.{page_table, table_entry}

abbrev pow2 : ℕ → ℕ
pow2 zero = 1
pow2 (suc w) = 2 * pow2 w

-- The low `j` bits of `a` are clear; `b` has no other bits than the low `j`.
abbrev IsClearBelow : ℕ → ℕ → Type 0
IsClearBelow zero a = Unit {0}
IsClearBelow (suc j) a = (a % 2 ≡ 0) × IsClearBelow j (a / 2)

abbrev IsWithin : ℕ → ℕ → Type 0
IsWithin zero b = b ≡ 0
IsWithin (suc j) b = IsWithin j (b / 2)

or_bits_step :
    (w a b : ℕ)
    → or_bits (suc w) a b
      ≡ (if a % 2 == 1 || b % 2 == 1 then 1 else 0) + 2 * or_bits w (a / 2) (b / 2)
unfolding or_bits
or_bits_step w a b = refl

or_bits-zero : (w a : ℕ) → a < pow2 w → or_bits w a 0 ≡ a
unfolding or_bits
or_bits-zero zero a h = omega arith
or_bits-zero (suc w) a h = ground (arith, or_bits-zero w (a / 2) (omega arith))

or_bits-low :
    (j w a b : ℕ) → j ≤ w → a < pow2 w → IsClearBelow j a → IsWithin j b → or_bits w a b ≡ a + b
unfolding or_bits
or_bits-low zero w a b l h c i = ground (arith, or_bits-zero w a h, i)
or_bits-low (suc j) zero a b l h c i = absurd (omega arith)
or_bits-low (suc j) (suc w) a b l h c i =
    ground (arith, or_bits-low j w (a / 2) (b / 2) (omega arith) (omega arith) c.1 i, c.0)

or_bits-lt : (w a b : ℕ) → or_bits w a b < pow2 w
unfolding or_bits
or_bits-lt zero a b = omega arith
or_bits-lt (suc w) a b = ground (arith, or_bits-lt w (a / 2) (b / 2))

pub or_word-lt : (a b : ℕ) → or_word a b < 2 ^ 32
unfolding or_word
or_word-lt a b = or_bits-lt 32 a b

-- An address of a page with flags is their sum.
pub or_word-flags : (a f : ℕ) → a < 2 ^ 32 → a % page_size ≡ 0 → f < page_size → or_word a f ≡ a + f
unfolding or_word
or_word-flags a f h al l = or_bits-low 12 32 a f (omega arith) h (ground arith) (omega arith)

or_bits-one : (w a : ℕ) → a < 2 * pow2 w → or_bits (suc w) a 1 ≡ a / 2 * 2 + 1
unfolding or_bits
or_bits-one w a h = ground (arith, or_bits-zero w (a / 2) (omega arith))

or_bits-two : (w a : ℕ) → a < 2 * (2 * pow2 w) → a / 2 % 2 ≡ 0 → or_bits (suc (suc w)) a 2 ≡ a + 2
or_bits-two w a h c =
    let low : or_bits (suc w) (a / 2) 1 ≡ a / 2 / 2 * 2 + 1 = or_bits-one w (a / 2) (omega arith) in
    rw (or_bits_step (suc w) a 2, low) (ground arith)

or_bits-four :
    (w a : ℕ) → a < 2 * (2 * (2 * pow2 w)) → a / 4 % 2 ≡ 0 → or_bits (suc (suc (suc w))) a 4 ≡ a + 4
or_bits-four w a h c =
    let low : or_bits (suc (suc w)) (a / 2) 2 ≡ a / 2 + 2 =
      or_bits-two w (a / 2) (omega arith) (omega arith) in
    rw (or_bits_step (suc (suc w)) a 4, low) (ground arith)

pub or_word-one : (a : ℕ) → a < 2 ^ 32 → or_word a 1 ≡ a / 2 * 2 + 1
unfolding or_word
or_word-one a h = or_bits-one 31 a h

or_word-two : (a : ℕ) → a < 2 ^ 32 → a / 2 % 2 ≡ 0 → or_word a 2 ≡ a + 2
unfolding or_word
or_word-two a h c = or_bits-two 30 a h c

or_word-four : (a : ℕ) → a < 2 ^ 32 → a / 4 % 2 ≡ 0 → or_word a 4 ≡ a + 4
unfolding or_word
or_word-four a h c = or_bits-four 29 a h c

table_entry-eq : (p : ℕ) → p % page_size ≡ 0 → table_entry p ≡ v2p p + 7
unfolding table_entry
table_entry-eq p h =
    let one : or_word (v2p p) 1 ≡ v2p p + 1 = ground (arith, or_word-one (v2p p) (omega arith)) in
    let two : or_word (v2p p + 1) 2 ≡ v2p p + 3 =
      ground (arith, or_word-two (v2p p + 1) (omega arith) (omega arith)) in
    rw (one, two) (ground (arith, or_word-four (v2p p + 3) (omega arith) (omega arith)))

-- A directory entry for a page is present, names the page and is a word.
pub table_entry_lem :
    (p : ℕ)
    → p % page_size ≡ 0
    → p < 2 ^ 32
    → (is_present (table_entry p) ≡ true)
      × (page_table (table_entry p) ≡ p)
      × (table_entry p < 2 ^ 32)
table_entry_lem p h l = rw (table_entry-eq p h) (ground arith, omega arith, omega arith)

-- `pa | perm | PTE_P`
abbrev pub flagged : ℕ → ℕ → ℕ
flagged pa perm = or_word (or_word pa perm) pte_p

-- The entry of a page with flags is present, names the page and has the flags.
pub flagged_lem :
    (pa perm : ℕ)
    → pa % page_size ≡ 0
    → pa + page_size ≤ 2 ^ 32
    → perm < page_size
    → (is_present (flagged pa perm) ≡ true)
      × (pte_addr (flagged pa perm) ≡ pa)
      × (pte_flags (flagged pa perm) ≡ perm / 2 * 2 + 1)
flagged_lem pa perm h l f =
    rw (or_word-flags pa perm (omega arith) h f, or_word-one (pa + perm) (omega arith))
      (ground arith, omega arith, omega arith)
