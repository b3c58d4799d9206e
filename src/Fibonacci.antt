-- ===== src/Fibonacci.antt =====
-- `fibonacci_number` of proc.c: a memo table under a reentrant lock that its own recursive calls take
-- again. `me` is the pid of the calling process; no result means that it sleeps on the lock. The index
-- of a call is a number: of the negative ones only -1 and -2 occur, in the calls at 0 and 1.
pub mod Numbers
pub mod Memo
pub mod Calls
pub mod Tests
use ut_os.Base.{
  ℕ, zero, suc, ◌+◌, Bool, true, false, leb, if◌then◌else◌, Option, none, some, List, [], ◌∷◌,
  get_or, set, replicate, wrap, minus_one,
}
use ut_os.Reentrant.{Reentrantlock, initreentrantlock, acquirereentrant, releasereentrant}

abbrev pub table_size : ℕ
table_size = 41

pub record FibNums : Type 0 where
  pub lock : Reentrantlock
  pub fibs : List ℕ
  pub valid : List Bool

pub fib_init : FibNums
fib_init = record {
  lock = initreentrantlock;
  fibs = 1 ∷ 1 ∷ replicate 39 0;
  valid = true ∷ true ∷ replicate 39 false;
}

abbrev pub fibs_at : FibNums → ℕ → ℕ
fibs_at s n = get_or s.fibs n 0

abbrev pub valid_at : FibNums → ℕ → Bool
valid_at s n = get_or s.valid n false

-- `fib_nums.fibs[n] += r`
abbrev pub add_at : FibNums → ℕ → ℕ → FibNums
add_at s n r = record s { fibs = set s.fibs n (wrap (fibs_at s n + r)) }

abbrev pub Call : Type 0
Call = FibNums → Option (ℕ × FibNums)

-- `releasereentrant(&fib_nums.lock); return fib_nums.fibs[n];`
abbrev pub leave : ℕ → ℕ → Call
leave me n s = let s' = record s { lock = releasereentrant me s.lock } in some (fibs_at s' n, s')

-- The two recursive calls, made under the lock, and the stores around them.
abbrev pub compute : ℕ → ℕ → Call → Call → Call
compute me n first second s = elim (first s) [
  | none ↦ none
  | some (r1, s1) ↦ elim (second (add_at s1 n r1)) [
    | none ↦ none
    | some (r2, s2) ↦
        (let s3 = add_at s2 n r2 in leave me n (record s3 { valid = set s3.valid n true }))
  ]
]

-- The body, with its calls at `n - 1` and `n - 2`.
abbrev pub body : ℕ → ℕ → Call → Call → Call
body me n first second s =
    if leb table_size n then some (minus_one, s) else (elim (acquirereentrant me s.lock) [
      | none ↦ none
      | some lk ↦
          (let s1 = record s { lock = lk } in
            if valid_at s1 n then leave me n s1 else compute me n first second s1)
    ])

-- A call at a negative index.
abbrev pub out_of_range : Call
out_of_range s = some (minus_one, s)

pub fibonacci_number : ℕ → ℕ → Call
fibonacci_number me zero s = body me 0 out_of_range out_of_range s
fibonacci_number me (suc zero) s = body me 1 (λ s'. fibonacci_number me zero s') out_of_range s
fibonacci_number me (suc (suc n)) s =
    body me (suc (suc n)) (λ s'. fibonacci_number me (suc n) s') (λ s'. fibonacci_number me n s') s
