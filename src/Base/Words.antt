-- ===== src/Base/Words.antt =====
-- 32-bit integers as their bit patterns, numbers below 2 ^ 32. A C `int` and a C `uint` of the same
-- bits are the same number; what is signed is the comparison.
use Prim.Native.Nat.{ℕ, ◌+◌, ◌-◌, ◌%◌, ◌^◌}
use mathlib.Core.Bool.{Bool}
use ut_os.Base.Tests.{ltb, leb}

abbrev pub wrap : ℕ → ℕ
wrap n = n % 2 ^ 32

-- The pattern of -1.
abbrev pub minus_one : ℕ
minus_one = 2 ^ 32 - 1

abbrev pub sub_word : ℕ → ℕ → ℕ
sub_word a b = (a + 2 ^ 32 - b) % 2 ^ 32

-- Adding 2 ^ 31 to both patterns turns the order of the integers into that of the numbers.
abbrev pub bias : ℕ → ℕ
bias a = (a + 2 ^ 31) % 2 ^ 32

-- `a < b` and `a <= b` on `int`.
abbrev pub lt_int : ℕ → ℕ → Bool
lt_int a b = ltb (bias a) (bias b)

abbrev pub le_int : ℕ → ℕ → Bool
le_int a b = leb (bias a) (bias b)
