-- ===== src/Fibonacci/Calls.antt =====
-- What a call of fibonacci_number returns, and that it returns.
use ut_os.Base.{
  ℕ, zero, suc, ◌+◌, ◌≤◌, ◌<◌, ◌^◌, ◌≡◌, refl, ap, replicate, sym, ◌∙◌, true, false, Bool-cases,
  inl, inr, some, get_or, set, minus_one, arith,
}
use native.Mathlib.Decide.{dec_lt}
use ut_os.Reentrant.{Reentrantlock, acquirereentrant, releasereentrant}
use ut_os.Reentrant.Laws.{acquirereentrant-IsValid, acquirereentrant_deeper, IsHeldAt-bound}
use ut_os.Fibonacci.{
  table_size, FibNums, fib_init, fibs_at, valid_at, add_at, Call, leave, body, out_of_range,
  fibonacci_number,
}
use ut_os.Fibonacci.Numbers.{fib, fib-zero, fib-one}
use ut_os.Fibonacci.Memo.{
  IsMemo, Holds, Returned, Serves, IsMemo-mono, leave_lem, body-hit, add_at-IsMemo, last,
  last-IsMemo, second_sum, valid_at-last, last-frame,
}

body-runs :
    (me n : ℕ) (first second : Call) (s : FibNums) {s2 s3 : FibNums} {lk : Reentrantlock}
    {r1 r2 : ℕ}
    → acquirereentrant me s.lock ≡ some lk
    → n < table_size
    → valid_at s n ≡ false
    → first (record s { lock = lk }) ≡ some (r1, s2)
    → second (add_at s2 n r1) ≡ some (r2, s3)
    → body me n first second s
      ≡ leave me n (record (add_at s3 n r2) { valid = set (add_at s3 n r2).valid n true })
body-runs me n first second s got fits miss ran1 ran2 = ground arith

module _ (me : ℕ) where
  -- The step of the induction: calls that serve at `k + 1` and `k` one level deeper make a call that
  -- serves at `k + 2`.
  body-miss :
      (d k : ℕ) (first second : Call)
      → suc (suc k) < table_size
      → d + 1 < 2 ^ 32
      → Serves me (suc d) (suc k) first
      → Serves me (suc d) k second
      → (s : FibNums) → IsMemo (suc (suc (suc k))) s
      → Holds me d s
      → valid_at s (suc (suc k)) ≡ false
      → (r : ℕ) × (t : FibNums) × (body me (suc (suc k)) first second s ≡ some (r, t))
        × Returned me d (suc (suc k)) s r t
  body-miss d k first second fits b serve1 serve2 s m h miss =
      let (lk, got, deep) = acquirereentrant_deeper me s.lock d h.0 h.1 b in
      let s1 = record s { lock = lk } in
      let m1 = IsMemo-mono (suc (suc (suc k))) (suc (suc (suc k))) s lk (omega arith) m in
      let (r1, s2, ran1, one) =
        serve1 s1 (IsMemo-mono (suc (suc k)) (suc (suc (suc k))) s lk (omega arith) m)
          (acquirereentrant-IsValid me h.0 (IsHeldAt-bound me s.lock d h.0 h.1 b) got, deep) in
      let m2 = IsMemo-mono (suc k) (suc (suc k)) s2 s2.lock (omega arith) one.memo in
      let (r2, s3, ran2, two) =
        serve2 (add_at s2 (suc (suc k)) r1)
          (add_at-IsMemo (suc k) (suc (suc k)) r1 s2 (omega arith) m2) one.lock in
      let t = last me (suc d) k fits miss m1 one two in
      (
        fibs_at t (suc (suc k)),
        record t { lock = releasereentrant me s3.lock },
        body-runs me (suc (suc k)) first second s got fits miss ran1 ran2,
        record {
          value = second_sum me (suc d) k fits miss m1 one two;
          memo =
              IsMemo-mono (suc (suc (suc k))) (suc (suc (suc k))) t (releasereentrant me s3.lock)
                (omega arith) (last-IsMemo me (suc d) k fits miss m1 one two);
          done = valid_at-last me (suc d) k fits miss m1 one two;
          frame = last-frame me (suc d) k fits miss m1 one two;
          lock = leave_lem me d (suc (suc k)) s3 two.lock;
        },
      )

  serve_split :
      (d k : ℕ) {first second : Call}
      → Serves me (suc d) (suc k) first
      → Serves me (suc d) k second
      → suc (suc k) < table_size
      → d + 1 < 2 ^ 32
      → Serves me d (suc (suc k)) (body me (suc (suc k)) first second)
  serve_split d k {first} {second} serve1 serve2 fits b s m h =
      elim (Bool-cases (valid_at s (suc (suc k)))) [
        | inl hit ↦ body-hit me d (suc (suc k)) s first second fits b m h hit
        | inr miss ↦ body-miss d k first second fits b serve1 serve2 s m h miss
      ]

  serve_at :
      (n d : ℕ) → n < table_size → d + n + 1 < 2 ^ 32 → Serves me d n (λ s. fibonacci_number me n s)
  unfolding fibonacci_number
  serve_at zero d fits b s m h =
      body-hit me d 0 s out_of_range out_of_range fits (omega arith) m h m.seeded.0
  serve_at (suc zero) d fits b s m h =
      body-hit me d 1 s (λ s'. fibonacci_number me zero s') out_of_range fits (omega arith) m h
        m.seeded.1
  serve_at (suc (suc k)) d fits b s m h =
      serve_split d k (serve_at (suc k) (suc d) (omega arith) (omega arith))
        (serve_at k (suc d) (omega arith) (omega arith)) fits (omega arith) s m h

-- What a call leaves alone was right before.
Returned-IsMemo :
    {me d n r : ℕ} {s t : FibNums}
    → IsMemo table_size s
    → Returned me d n s r t
    → IsMemo table_size t
Returned-IsMemo {n} {s} {t} m ret = record {
  fibs_size = ret.memo.fibs_size;
  valid_size = ret.memo.valid_size;
  seeded = ret.memo.seeded;
  right = λ i h v. elim (dec_lt i (suc n)) [
    | yes low ↦ ret.memo.right i low v
    | no high ↦ ground (arith, ret.frame i (omega arith), m.right i h)
  ];
  blank = λ i h v. elim (dec_lt i (suc n)) [
    | yes low ↦ ret.memo.blank i low v
    | no high ↦ ground (arith, ret.frame i (omega arith), m.blank i h)
  ];
}

-- At every index of the table a process that finds the lock free, or holds it already at a depth that
-- the calls do not take past the end of the int, gets the Fibonacci number of the index (counted from
-- 1, 1 on): it does not sleep on its own lock, leaves the lock at the depth where it found it, and
-- leaves a table whose valid entries are right.
pub fibonacci_number_lem :
    (me d n : ℕ) (s : FibNums)
    → n < table_size
    → d + n + 1 < 2 ^ 32
    → IsMemo table_size s
    → Holds me d s
    → (t : FibNums) × (fibonacci_number me n s ≡ some (fib n, t))
      × IsMemo table_size t
      × Holds me d t
fibonacci_number_lem me d n s fits b m h =
    let (r, t, ran, ret) =
      serve_at me n d fits b s (IsMemo-mono (suc n) table_size s s.lock (omega arith) m) h in
    (t, ran ∙ ap (λ k. some (k, t)) ret.value, Returned-IsMemo m ret, ret.lock)

-- Behind the table nothing is computed and nothing changes: the call returns -1.
pub fibonacci_number_range :
    (me n : ℕ) (s : FibNums) → table_size ≤ n → fibonacci_number me n s ≡ some (minus_one, s)
unfolding fibonacci_number
fibonacci_number_range me zero s h = absurd (omega arith)
fibonacci_number_range me (suc zero) s h = absurd (omega arith)
fibonacci_number_range me (suc (suc n)) s h = ground arith

get_or-replicate {ℓ} : {A : Type ℓ} (n i : ℕ) (a : A) → get_or (replicate n a) i a ≡ a
get_or-replicate zero i a = refl
get_or-replicate (suc n) zero a = refl
get_or-replicate (suc n) (suc i) a = get_or-replicate n i a

fib_init-entry :
    (i : ℕ)
    → (valid_at fib_init i ≡ true → fibs_at fib_init i ≡ fib i)
      × (valid_at fib_init i ≡ false → fibs_at fib_init i ≡ 0)
unfolding fib_init
fib_init-entry zero = (λ v. sym fib-zero, λ v. cc)
fib_init-entry (suc zero) = (λ v. sym fib-one, λ v. cc)
fib_init-entry (suc (suc i)) =
    (λ v. cc (get_or-replicate 39 i false, v), λ v. get_or-replicate 39 i 0)

pub fib_init-IsMemo : IsMemo table_size fib_init
unfolding fib_init
fib_init-IsMemo = record {
  fibs_size = refl;
  valid_size = refl;
  seeded = (refl, refl);
  right = λ i h. (fib_init-entry i).0;
  blank = λ i h. (fib_init-entry i).1;
}
