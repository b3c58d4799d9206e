-- ===== src/Fibonacci/Memo.antt =====
-- The memo table of fibonacci_number, and what a call returns.
use ut_os.Base.{
  ℕ, suc, ◌+◌, ◌≤◌, ◌<◌, ◌^◌, ◌≡◌, ◌≢◌, refl, sym, ◌∙◌, true, false, leb, some, set, length, wrap,
  get_or-set_self, get_or-set_ne, length-set, arith,
}
use native.Mathlib.Decide.{dec_lt, ℕ_discrete}
use ut_os.Reentrant.{Reentrantlock, releasereentrant}
use ut_os.Reentrant.Laws.{
  IsValid, IsHeldAt, acquirereentrant-IsValid, releasereentrant-IsValid, acquirereentrant_deeper,
  releasereentrant_undoes, IsHeldAt-bound,
}
use ut_os.Fibonacci.{table_size, FibNums, fibs_at, valid_at, add_at, Call, body}
use ut_os.Fibonacci.Numbers.{fib, fib-suc, fib-lt}

-- The entries below `k` are right where they are valid, and blank where they are not.
pub record IsMemo (k : ℕ) (s : FibNums) : Type 0 where
  pub fibs_size : length s.fibs ≡ table_size
  pub valid_size : length s.valid ≡ table_size
  pub seeded : (valid_at s 0 ≡ true) × (valid_at s 1 ≡ true)
  pub right : (i : ℕ) → i < k → valid_at s i ≡ true → fibs_at s i ≡ fib i
  pub blank : (i : ℕ) → i < k → valid_at s i ≡ false → fibs_at s i ≡ 0

-- From the entries `k` on the two tables are the same.
abbrev pub SameFrom : ℕ → FibNums → FibNums → Type 0
SameFrom k s t = (i : ℕ) → k ≤ i → (fibs_at t i ≡ fibs_at s i) × (valid_at t i ≡ valid_at s i)

-- The lock is in order, and `me` holds it `d` deep.
abbrev pub Holds : ℕ → ℕ → FibNums → Type 0
Holds me d s = IsValid s.lock × IsHeldAt me s.lock d

-- What a call at `n` returns: the number, the table extended, the lock at the depth of the call.
pub record Returned (me d n : ℕ) (s : FibNums) (r : ℕ) (t : FibNums) : Type 0 where
  pub value : r ≡ fib n
  pub memo : IsMemo (suc n) t
  pub done : valid_at t n ≡ true
  pub frame : SameFrom (suc n) s t
  pub lock : Holds me d t

-- A call that serves at depth `d`, at every table that is a memo up to `n`.
abbrev pub Serves : ℕ → ℕ → ℕ → Call → Type 0
Serves me d n call =
    (s : FibNums)
    → IsMemo (suc n) s
    → Holds me d s
    → (r : ℕ) × (t : FibNums) × (call s ≡ some (r, t)) × Returned me d n s r t

-- The lock is no part of the memo.
pub IsMemo-mono :
    (j k : ℕ) (s : FibNums) (lk : Reentrantlock)
    → j ≤ k
    → IsMemo k s
    → IsMemo j (record s { lock = lk })
IsMemo-mono j k s lk h m = record {
  fibs_size = m.fibs_size;
  valid_size = m.valid_size;
  seeded = m.seeded;
  right = λ i p. m.right i (omega arith);
  blank = λ i p. m.blank i (omega arith);
}

module _ (me d n : ℕ) where
  -- The last step of a call, one level deeper: the lock goes back to the depth of the caller.
  pub leave_lem :
      (s : FibNums)
      → Holds me (suc d) s
      → Holds me d (record s { lock = releasereentrant me s.lock })
  leave_lem s h = (releasereentrant-IsValid me h.0, releasereentrant_undoes me s.lock d h.0 h.1)

  pub body-hit :
      (s : FibNums) (first second : Call)
      → n < table_size
      → d + 1 < 2 ^ 32
      → IsMemo (suc n) s
      → Holds me d s
      → valid_at s n ≡ true
      → (r : ℕ) × (t : FibNums) × (body me n first second s ≡ some (r, t)) × Returned me d n s r t
  body-hit s first second lt b m h v =
      let (lk, got, deep) = acquirereentrant_deeper me s.lock d h.0 h.1 b in
      let s1 = record s { lock = lk } in
      (
        fibs_at s n,
        record s { lock = releasereentrant me lk },
        rw (got, v, small) refl,
        record {
          value = m.right n (omega arith) v;
          memo = IsMemo-mono (suc n) (suc n) s (releasereentrant me lk) (omega arith) m;
          done = v;
          frame = λ i p. (refl, refl);
          lock =
              leave_lem s1
                (acquirereentrant-IsValid me h.0 (IsHeldAt-bound me s.lock d h.0 h.1 b) got, deep);
        },
      )
    where
      small : leb table_size n ≡ false
      small = ground arith

pub fibs_at-add_at :
    (s : FibNums) (n r : ℕ) → n < length s.fibs → fibs_at (add_at s n r) n ≡ wrap (fibs_at s n + r)
fibs_at-add_at s n r h = get_or-set_self s.fibs n (wrap (fibs_at s n + r)) 0 h

pub fibs_at-add_at_ne : (s : FibNums) (n r i : ℕ) → n ≢ i → fibs_at (add_at s n r) i ≡ fibs_at s i
fibs_at-add_at_ne s n r i h = get_or-set_ne s.fibs n i (wrap (fibs_at s n + r)) 0 h

-- A store at or above the entries that are watched.
pub add_at-IsMemo : (k n r : ℕ) (s : FibNums) → k ≤ n → IsMemo k s → IsMemo k (add_at s n r)
add_at-IsMemo k n r s h m = record {
  fibs_size = length-set s.fibs n (wrap (fibs_at s n + r)) ∙ m.fibs_size;
  valid_size = m.valid_size;
  seeded = m.seeded;
  right = λ i p v. fibs_at-add_at_ne s n r i (omega arith) ∙ m.right i p v;
  blank = λ i p v. fibs_at-add_at_ne s n r i (omega arith) ∙ m.blank i p v;
}

-- The states of a call at `k + 2` that does not find its number: before the first inner call, behind
-- it, and behind the second one.
module _ (me d k : ℕ) {s s2 s3 : FibNums} {r1 r2 : ℕ} (fits : suc (suc k) < table_size)
    (miss : valid_at s (suc (suc k)) ≡ false) (m : IsMemo (suc (suc (suc k))) s)
    (one : Returned me d (suc k) s r1 s2)
    (two : Returned me d k (add_at s2 (suc (suc k)) r1) r2 s3) where
  abbrev pub n : ℕ
  n = suc (suc k)

  pub first_sum : fibs_at (add_at s2 n r1) n ≡ fib (suc k)
  first_sum = omega (
    arith,
    fibs_at-add_at s2 n r1 (omega (arith, one.memo.fibs_size)),
    one.frame n (omega arith),
    m.blank n (omega arith) miss,
    one.value,
    fib-lt (suc k) (omega arith),
  )

  pub second_sum : fibs_at (add_at s3 n r2) n ≡ fib n
  second_sum = omega (
    arith,
    fibs_at-add_at s3 n r2 (omega (arith, two.memo.fibs_size)),
    two.frame n (omega arith),
    first_sum,
    two.value,
    fib-suc k,
    fib-lt n fits,
  )

  abbrev pub last : FibNums
  last = let s4 = add_at s3 n r2 in record s4 { valid = set s4.valid n true }

  pub valid_at-last : valid_at last n ≡ true
  valid_at-last = get_or-set_self s3.valid n true false (omega (arith, two.memo.valid_size))

  pub last_ne :
      (i : ℕ) → n ≢ i → (fibs_at last i ≡ fibs_at s3 i) × (valid_at last i ≡ valid_at s3 i)
  last_ne i h = (fibs_at-add_at_ne s3 n r2 i h, get_or-set_ne s3.valid n i true false h)

  pub last-below :
      (i : ℕ) → i < suc k → (fibs_at last i ≡ fibs_at s3 i) × (valid_at last i ≡ valid_at s3 i)
  last-below i h = last_ne i (omega arith)

  pub last-seeded : (valid_at last 0 ≡ true) × (valid_at last 1 ≡ true)
  last-seeded = (
    (last_ne 0 (omega arith)).1 ∙ two.memo.seeded.0,
    (last_ne 1 (omega arith)).1 ∙ two.memo.seeded.1,
  )

  -- The number of the first inner call is still there behind the second.
  pub last-first : (fibs_at last (suc k) ≡ fib (suc k)) × (valid_at last (suc k) ≡ true)
  last-first =
      let e = last_ne (suc k) (omega arith) in
      let f = two.frame (suc k) (omega arith) in
      (
        e.0
            ∙ f.0
            ∙ fibs_at-add_at_ne s2 n r1 (suc k) (omega arith)
            ∙ one.memo.right (suc k) (omega arith) one.done,
        e.1 ∙ f.1 ∙ one.done,
      )

  pub last-entry :
      (i : ℕ)
      → i < suc n
      → (valid_at last i ≡ true → fibs_at last i ≡ fib i)
        × (valid_at last i ≡ false → fibs_at last i ≡ 0)
  last-entry i h = elim (dec_lt i (suc k)) [
    | yes low ↦
        (let e = last-below i low in
          (
            λ v. e.0 ∙ two.memo.right i low (sym e.1 ∙ v),
            λ v. e.0 ∙ two.memo.blank i low (sym e.1 ∙ v),
          ))
    | no high ↦ elim (ℕ_discrete i n) [
      | yes top ↦ rw top (λ v. second_sum, λ v. absurd (cc (valid_at-last, v)))
      | no below ↦
          (let e : i ≡ suc k = omega arith in
            rw e (λ v. last-first.0, λ v. absurd (cc (last-first.1, v))))
    ]
  ]

  pub last-IsMemo : IsMemo (suc n) last
  last-IsMemo = record {
    fibs_size = length-set s3.fibs n (wrap (fibs_at s3 n + r2)) ∙ two.memo.fibs_size;
    valid_size = length-set s3.valid n true ∙ two.memo.valid_size;
    seeded = last-seeded;
    right = λ i h. (last-entry i h).0;
    blank = λ i h. (last-entry i h).1;
  }

  pub last-frame : SameFrom (suc n) s last
  last-frame i h =
      let e = last_ne i (omega arith) in
      let f = two.frame i (omega arith) in
      let g = one.frame i (omega arith) in
      (e.0 ∙ f.0 ∙ fibs_at-add_at_ne s2 n r1 i (omega arith) ∙ g.0, e.1 ∙ f.1 ∙ g.1)
