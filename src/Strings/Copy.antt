-- ===== src/Strings/Copy.antt =====
-- strncpy and safestrcpy of string.c.
use ut_os.Base.{
  ℕ, zero, suc, ◌+◌, ◌-◌, ◌≤◌, ◌<◌, ◌≡◌, ◌⊎◌, ltb, leb, ◌&&◌, if◌then◌else◌, arith, length,
}
use ut_os.Strings.{Memory, store, pad, strncpy, copy_string, safestrcpy}
use ut_os.Strings.Compare.{text, text-store, length-text-le}

-- The `n` bytes at `s` are set to the text `t` has, `k` bytes long, and zeros behind it.
abbrev pub padded : Memory → ℕ → ℕ → ℕ → ℕ → Memory
padded m s t k n x =
    if leb s x && ltb x (s + n) then (if ltb x (s + k) then m (t + (x - s)) else 0) else m x

-- The two ranges of `n` bytes have no byte in common.
abbrev pub AreApart : ℕ → ℕ → ℕ → Type 0
AreApart s t n = (s + n ≤ t) ⊎ (t + n ≤ s)

pad-eq : (m : Memory) (s n x : ℕ) → pad m s n x ≡ (if leb s x && ltb x (s + n) then 0 else m x)
unfolding pad
pad-eq m s zero x = ground arith
pad-eq m s (suc n) x = ground (arith, pad-eq (store m s 0) (s + 1) n x)

-- strncpy sets exactly the `n` bytes at `s`: first the text at `t`, of `n` bytes at most, then zeros
-- to the end of the range, if the two ranges are apart.
pub strncpy_lem :
    (m : Memory) (s t n x : ℕ)
    → AreApart s t n
    → strncpy m s t n x ≡ padded m s t (length (text m t n)) n x
unfolding strncpy text
strncpy_lem m s t zero x h = ground arith
strncpy_lem m s t (suc n) x h = ground (
  arith,
  pad-eq (store m s (m t)) (s + 1) n x,
  strncpy_lem (store m s (m t)) (s + 1) (t + 1) n x,
  text-store m s (m t) (t + 1) n,
)

copy_string-outside :
    (m : Memory) (s t n x : ℕ) → (x < s) ⊎ (s + n < x) → copy_string m s t n x ≡ m x
unfolding copy_string
copy_string-outside m s t zero x h = ground arith
copy_string-outside m s t (suc n) x h =
    ground (arith, copy_string-outside (store m s (m t)) (s + 1) (t + 1) n x)

copy_string-text :
    (m : Memory) (s t n : ℕ)
    → AreApart s t (suc n)
    → text (copy_string m s t n) s (suc n) ≡ text m t n
unfolding copy_string text
copy_string-text m s t zero h = ground arith
copy_string-text m s t (suc n) h = ground (
  arith,
  copy_string-outside (store m s (m t)) (s + 1) (t + 1) n s,
  copy_string-text (store m s (m t)) (s + 1) (t + 1) n,
  text-store m s (m t) (t + 1) n,
)

-- safestrcpy with room for `n + 1` bytes leaves at `s` the text at `t`, cut to `n` bytes, with a NUL
-- within the room, and changes no byte outside it, if the two ranges are apart.
pub safestrcpy_lem :
    (m : Memory) (s t n : ℕ)
    → AreApart s t (suc n)
    → (text (safestrcpy m s t (suc n)) s (suc n) ≡ text m t n)
      × (length (text (safestrcpy m s t (suc n)) s (suc n)) < suc n)
      × ((x : ℕ) → (x < s) ⊎ (s + n < x) → safestrcpy m s t (suc n) x ≡ m x)
unfolding safestrcpy
safestrcpy_lem m s t n h = (
  copy_string-text m s t n h,
  rw (copy_string-text m s t n h) (omega (arith, length-text-le m t n)),
  copy_string-outside m s t n,
)
