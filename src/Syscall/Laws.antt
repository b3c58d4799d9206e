-- ===== src/Syscall/Laws.antt =====
-- What the argument checks let through.
use ut_os.Base.{
  ℕ, zero, suc, ◌+◌, ◌-◌, ◌*◌, ◌^◌, ◌≤◌, ◌<◌, ◌≡◌, ltb, ◌&&◌, if◌then◌else◌, none, some, length,
  wrap, arith,
}
use ut_os.Strings.{Memory}
use ut_os.Strings.Compare.{text}
use ut_os.Syscall.{fetchint, find_nul, fetchstr, argint, argptr}

-- A block that argptr lets through lies wholly in the process's memory, which is at most 2 GB, and so
-- does the word of the stack that it was read from: neither sum wraps.
pub argptr_lem :
    (m : Memory) (sz esp n size p : ℕ)
    → sz ≤ 2 ^ 31
    → size < 2 ^ 32
    → argptr m sz esp n size ≡ some p
    → (p < sz) × (p + size ≤ sz) × (wrap (esp + 4 + 4 * n) + 4 ≤ sz)
unfolding argptr argint fetchint
argptr_lem m sz esp n size p h w e = ground arith

find_nul_lem :
    (m : Memory) (s n count : ℕ)
    → find_nul m s n count
      ≡ (if ltb (length (text m s n)) n then some (count + length (text m s n)) else none)
unfolding find_nul text
find_nul_lem m s zero count = ground arith
find_nul_lem m s (suc n) count = ground (arith, find_nul_lem m (s + 1) n (count + 1))

-- fetchstr returns the length of the text at the address if the address and the NUL that ends the text
-- lie in the process's memory, and fails otherwise.
pub fetchstr_lem :
    (m : Memory) (sz addr : ℕ)
    → fetchstr m sz addr ≡ (
        if ltb addr sz && ltb (addr + length (text m addr (sz - addr))) sz
        then some (length (text m addr (sz - addr)))
        else none)
unfolding fetchstr
fetchstr_lem m sz addr = ground (arith, find_nul_lem m addr (sz - addr) 0)
