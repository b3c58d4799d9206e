-- ===== src/Strings.antt =====
-- string.c: the byte routines of the kernel, over a memory that maps an address to its byte. A
-- `while (n-- > 0)` loop recurs on the rounds left. Pointers do not wrap: an address is any number.
pub mod Move
pub mod Fill
pub mod Compare
pub mod Copy
pub mod Tests
use ut_os.Base.{
  ℕ, zero, suc, ◌+◌, ◌-◌, ◌*◌, ◌/◌, ◌%◌, ◌==◌, ltb, if◌then◌else◌, ◌&&◌, not, Option, none, some,
  wrap, sub_word,
}
use mathlib.Core.Option

abbrev pub Memory : Type 0
Memory = ℕ → ℕ

-- `*a = v`
abbrev pub store : Memory → ℕ → ℕ → Memory
store m a v x = if a == x then v else m x

-- `stosb` of x86.h: `n` times the low byte of `c`.
pub stosb : Memory → ℕ → ℕ → ℕ → Memory
stosb m dst c zero = m
stosb m dst c (suc n) = stosb (store m dst (c % 256)) (dst + 1) c n

-- A 32-bit store, the low byte first.
abbrev pub store_word : Memory → ℕ → ℕ → Memory
store_word m a w =
    store (store (store (store m a (w % 256)) (a + 1) (w / 256 % 256)) (a + 2) (w / 65536 % 256))
      (a + 3) (w / 16777216 % 256)

-- `stosl` of x86.h: `n` times the word `w`.
pub stosl : Memory → ℕ → ℕ → ℕ → Memory
stosl m dst w zero = m
stosl m dst w (suc n) = stosl (store_word m dst w) (dst + 4) w n

-- The or of the four shifted bytes is their sum: no two of them share a bit.
pub memset : Memory → ℕ → ℕ → ℕ → Memory
memset m dst c n =
    if dst % 4 == 0 && n % 4 == 0
    then (let b = c % 256 in stosl m dst (b * 16777216 + b * 65536 + b * 256 + b) (n / 4))
    else stosb m dst c n

-- The result is the difference of the first two bytes that differ, as an `int`.
pub memcmp : Memory → ℕ → ℕ → ℕ → ℕ
memcmp m s1 s2 zero = 0
memcmp m s1 s2 (suc n) =
    let rest = memcmp m (s1 + 1) (s2 + 1) n in
    if not (m s1 == m s2) then sub_word (m s1) (m s2) else rest

-- `while (n-- > 0) *--d = *--s;`
pub copy_down : Memory → ℕ → ℕ → ℕ → Memory
copy_down m d s zero = m
copy_down m d s (suc n) = copy_down (store m (d - 1) (m (s - 1))) (d - 1) (s - 1) n

-- `while (n-- > 0) *d++ = *s++;`
pub copy_up : Memory → ℕ → ℕ → ℕ → Memory
copy_up m d s zero = m
copy_up m d s (suc n) = copy_up (store m d (m s)) (d + 1) (s + 1) n

pub memmove : Memory → ℕ → ℕ → ℕ → Memory
memmove m dst src n =
    if ltb src dst && ltb dst (src + n)
    then copy_down m (dst + n) (src + n) n
    else copy_up m dst src n

pub memcpy : Memory → ℕ → ℕ → ℕ → Memory
memcpy m dst src n = memmove m dst src n

pub strncmp : Memory → ℕ → ℕ → ℕ → ℕ
strncmp m p q zero = 0
strncmp m p q (suc n) =
    let rest = strncmp m (p + 1) (q + 1) n in
    if not (m p == 0) && m p == m q then rest else sub_word (m p) (m q)

-- The second loop of `strncpy`: `while (n-- > 0) *s++ = 0;`
pub pad : Memory → ℕ → ℕ → Memory
pad m s zero = m
pad m s (suc n) = pad (store m s 0) (s + 1) n

pub strncpy : Memory → ℕ → ℕ → ℕ → Memory
strncpy m s t zero = m
strncpy m s t (suc n) =
    let c = m t in
    let rest = strncpy (store m s c) (s + 1) (t + 1) n in
    let zeros = pad (store m s c) (s + 1) n in if c == 0 then zeros else rest

-- The loop of `safestrcpy` with `n` rounds left, and the store that ends it.
pub copy_string : Memory → ℕ → ℕ → ℕ → Memory
copy_string m s t zero = store m s 0
copy_string m s t (suc n) =
    let c = m t in
    let rest = copy_string (store m s c) (s + 1) (t + 1) n in
    if c == 0 then store (store m s c) (s + 1) 0 else rest

-- `n` is not negative here: for `n <= 0` nothing is written.
pub safestrcpy : Memory → ℕ → ℕ → ℕ → Memory
safestrcpy m s t zero = m
safestrcpy m s t (suc n) = copy_string m s t n

-- The scan of `strlen`, with fuel; `none` means that no NUL was met.
pub strlen : ℕ → Memory → ℕ → Option ℕ
strlen zero m s = none
strlen (suc f) m s =
    let rest = strlen f m (s + 1) in if m s == 0 then some 0 else Option.map suc rest
