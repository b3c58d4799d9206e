-- ===== src/Syscall.antt =====
-- syscall.c: the checked access to the arguments of a system call, and the dispatch. `sz` is the size
-- of the process, `esp` its stack pointer, and the memory that of Strings, at the addresses of the
-- process.
pub mod Laws
pub mod Tests
use ut_os.Base.{
  ℕ, zero, suc, ◌+◌, ◌-◌, ◌*◌, ◌==◌, ltb, leb, Bool, true, false, ◌&&◌, ◌||◌, if◌then◌else◌, Option,
  none, some, wrap, minus_one, lt_int,
}
use ut_os.Strings.{Memory}
use ut_os.Kalloc.{load_word}
use ut_os.Proc.Stats.{Tally, log_syscall}

-- `none` is -1.
pub fetchint : Memory → ℕ → ℕ → Option ℕ
fetchint m sz addr =
    if leb sz addr || ltb sz (wrap (addr + 4)) then none else some (load_word m addr)

-- The loop of `fetchstr` over `n` bytes, `count` of them behind it.
pub find_nul : Memory → ℕ → ℕ → ℕ → Option ℕ
find_nul m s zero count = none
find_nul m s (suc n) count =
    let rest = find_nul m (s + 1) n (count + 1) in if m s == 0 then some count else rest

-- The length; the pointer is `addr`.
pub fetchstr : Memory → ℕ → ℕ → Option ℕ
fetchstr m sz addr = if leb sz addr then none else find_nul m addr (sz - addr) 0

module _ (m : Memory) (sz esp : ℕ) where
  pub argint : ℕ → Option ℕ
  argint n = fetchint m sz (wrap (esp + 4 + 4 * n))

  pub argptr : ℕ → ℕ → Option ℕ
  argptr n size = elim (argint n) [
    | none ↦ none
    | some i ↦ if lt_int size 0 || leb sz i || ltb sz (wrap (i + size)) then none else some i
  ]

  -- The pointer and the length.
  pub argstr : ℕ → Option (ℕ × ℕ)
  argstr n = elim (argint n) [
    | none ↦ none
    | some addr ↦ elim (fetchstr m sz addr) [ none ↦ none | some len ↦ some (addr, len) ]
  ]

-- NELEM(syscalls): the calls have the numbers 1 to 34.
abbrev pub n_calls : ℕ
n_calls = 35

-- `call` stands for the entries of the table `syscalls`, all of them there. The result is the new
-- `eax`. No result where `_log_syscall` writes outside its array.
pub syscall {ℓ} : {S : Type ℓ} → (ℕ → S → ℕ × S) → ℕ → Tally → S → Option (ℕ × Tally × S)
syscall call num k s = elim (log_syscall num k) [
  | none ↦ none
  | some k' ↦
      if lt_int 0 num && ltb num n_calls
      then (let (r, s') = call num s in some (r, k', s'))
      else some (minus_one, k', s)
]
