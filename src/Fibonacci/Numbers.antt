-- ===== src/Fibonacci/Numbers.antt =====
-- The Fibonacci numbers, from 1 and 1 on; those of the table fit a word.
use ut_os.Base.{ℕ, zero, suc, ◌+◌, ◌-◌, ◌^◌, ◌≤◌, ◌<◌, ◌≡◌, refl, ap, arith}

pub fib : ℕ → ℕ
fib zero = 1
fib (suc zero) = 1
fib (suc (suc n)) = fib (suc n) + fib n

pub fib-suc : (n : ℕ) → fib (suc (suc n)) ≡ fib (suc n) + fib n
unfolding fib
fib-suc n = refl

pub fib-zero : fib 0 ≡ 1
unfolding fib
fib-zero = refl

pub fib-one : fib 1 ≡ 1
unfolding fib
fib-one = refl

fib-pos : (n : ℕ) → 0 < fib n
unfolding fib
fib-pos zero = omega arith
fib-pos (suc zero) = omega arith
fib-pos (suc (suc n)) = omega (arith, fib-pos n)

fib-le-suc : (n : ℕ) → fib n ≤ fib (suc n)
unfolding fib
fib-le-suc zero = omega arith
fib-le-suc (suc n) = omega arith

fib-le-add : (n k : ℕ) → fib n ≤ fib (k + n)
fib-le-add n zero = let e : 0 + n ≡ n = omega arith in omega (arith, ap fib e)
fib-le-add n (suc k) =
    let e : suc k + n ≡ suc (k + n) = omega arith in
    omega (arith, fib-le-add n k, fib-le-suc (k + n), ap fib e)

-- Two neighbours at once, in as many steps as the index says.
fib_pair : ℕ → ℕ × ℕ
fib_pair zero = (1, 1)
fib_pair (suc n) = let (a, b) = fib_pair n in (b, b + a)

fib_pair-eq : (n : ℕ) → (fib n ≡ (fib_pair n).0) × (fib (suc n) ≡ (fib_pair n).1)
unfolding fib fib_pair
fib_pair-eq zero = (refl, refl)
fib_pair-eq (suc n) = ground (arith, fib_pair-eq n)

fib_pair-last : (fib_pair 40).0 ≡ 165580141
unfolding fib_pair
fib_pair-last = refl

pub fib-lt : (n : ℕ) → n < 41 → fib n < 2 ^ 31
fib-lt n h =
    let last : 40 - n + n ≡ 40 = omega arith in
    omega (arith, fib_pair-last, fib_pair-eq 40, fib-le-add n (40 - n), ap fib last)
