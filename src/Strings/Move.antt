-- ===== src/Strings/Move.antt =====
-- memmove of string.c against the copy that reads all bytes first.
use ut_os.Base.{
  ℕ, zero, suc, ◌+◌, ◌-◌, ◌≤◌, ◌<◌, ◌≡◌, ◌⊎◌, ltb, leb, if◌then◌else◌, ◌&&◌, arith, fun_ext,
}
use ut_os.Strings.{Memory, store, copy_up, copy_down, memmove, memcpy}

-- The memory in which the `n` bytes from `d` on are those that `m` has from `s` on.
abbrev pub copied : Memory → ℕ → ℕ → ℕ → Memory
copied m d s n x = if leb d x && ltb x (d + n) then m (s + (x - d)) else m x

copy_up-eq :
    (m : Memory) (d s n x : ℕ) → (s + n ≤ d) ⊎ (d ≤ s) → copy_up m d s n x ≡ copied m d s n x
unfolding copy_up
copy_up-eq m d s zero x h = ground arith
copy_up-eq m d s (suc n) x h = ground (arith, copy_up-eq (store m d (m s)) (d + 1) (s + 1) n x)

copy_down-eq :
    (m : Memory) (d s n x : ℕ) → s < d → copy_down m (d + n) (s + n) n x ≡ copied m d s n x
unfolding copy_down
copy_down-eq m d s zero x h = ground arith
copy_down-eq m d s (suc n) x h =
    rw (last d, last s) (ground (arith, copy_down-eq (store m (d + n) (m (s + n))) d s n x h))
  where
    last : (a : ℕ) → a + suc n - 1 ≡ a + n
    last a = omega arith

-- memmove leaves in the destination the bytes that the source had at the call, and leaves every other
-- byte alone, also where the two ranges overlap in either direction.
pub memmove_lem : (m : Memory) (dst src n x : ℕ) → memmove m dst src n x ≡ copied m dst src n x
unfolding memmove
memmove_lem m dst src n x = ground (arith, copy_up-eq m dst src n x, copy_down-eq m dst src n x)

-- memcpy copies like memmove, overlap included.
pub memcpy_lem : (m : Memory) (dst src n : ℕ) → memcpy m dst src n ≡ copied m dst src n
unfolding memcpy
memcpy_lem m dst src n = fun_ext (memmove_lem m dst src n)
