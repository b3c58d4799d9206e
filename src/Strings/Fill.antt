-- ===== src/Strings/Fill.antt =====
-- memset of string.c: its word loop and its byte loop fill alike.
use ut_os.Base.{ℕ, zero, suc, ◌+◌, ◌*◌, ◌/◌, ◌%◌, ◌<◌, ◌≡◌, ltb, leb, if◌then◌else◌, ◌&&◌, arith}
use ut_os.Strings.{Memory, store, store_word, stosb, stosl, memset}

-- The memory whose `n` bytes from `d` on are `b`.
abbrev pub filled : Memory → ℕ → ℕ → ℕ → Memory
filled m d b n x = if leb d x && ltb x (d + n) then b else m x

stosb-eq : (m : Memory) (d c n x : ℕ) → stosb m d c n x ≡ filled m d (c % 256) n x
unfolding stosb
stosb-eq m d c zero x = ground arith
stosb-eq m d c (suc n) x = ground (arith, stosb-eq (store m d (c % 256)) (d + 1) c n x)

stosl-eq :
    (m : Memory) (d b n x : ℕ)
    → b < 256
    → stosl m d (b * 16777216 + b * 65536 + b * 256 + b) n x ≡ filled m d b (4 * n) x
unfolding stosl
stosl-eq m d b zero x h = ground arith
stosl-eq m d b (suc n) x h =
    ground
      (arith, stosl-eq (store_word m d (b * 16777216 + b * 65536 + b * 256 + b)) (d + 4) b n x h)

-- memset sets exactly the `n` bytes from `dst` on to the low byte of `c`, by either of its loops.
pub memset_lem : (m : Memory) (dst c n x : ℕ) → memset m dst c n x ≡ filled m dst (c % 256) n x
unfolding memset
memset_lem m dst c n x = ground (arith, stosb-eq m dst c n x, stosl-eq m dst (c % 256) (n / 4) x)
