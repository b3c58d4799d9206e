-- ===== src/FileSystem/Bits.antt =====
-- The bits of the bytes of the free block bitmap, checked byte by byte.
use ut_os.Base.{
  ℕ, zero, suc, ◌<◌, ◌≡◌, refl, sym, subst, inl, inr, ◌==◌, ==→eq, Bool-cases, if◌then◌else◌, ltb,
  Bool, true, false, ◌&&◌, ◌||◌, not, arith,
}
use ut_os.FileSystem.{is_clear, set_bit, clear_bit}

-- Does every number under the bound pass the test?
holds_to : (ℕ → Bool) → ℕ → Bool
holds_to test zero = true
holds_to test (suc top) = if test top then holds_to test top else false

holds_to-true :
    (test : ℕ → Bool) (bound i : ℕ) → i < bound → holds_to test bound ≡ true → test i ≡ true
unfolding holds_to
holds_to-true test zero i low h = absurd (omega arith)
holds_to-true test (suc top) i low h = elim (Bool-cases (i == top)) [
  | inl last ↦ subst (λ k. test k ≡ true) (sym (==→eq i top last)) (ground arith)
  | inr under ↦ holds_to-true test top i (ground arith) (ground arith)
]

same : Bool → Bool → Bool
same true b = b
same false b = not b

eq_of_same : (a b : Bool) → same a b ≡ true → a ≡ b
unfolding same
eq_of_same true true h = refl
eq_of_same true false h = ground arith
eq_of_same false true h = ground arith
eq_of_same false false h = refl

-- A test on a byte, a bit of it and another bit, for all of them.
all_bits : (ℕ → ℕ → ℕ → Bool) → Bool
all_bits p = holds_to (λ x. holds_to (λ k. holds_to (p x k) 8) 8) 256

all_bits_sound :
    (p : ℕ → ℕ → ℕ → Bool)
    → all_bits p ≡ true
    → (x k j : ℕ) → x < 256
    → k < 8
    → j < 8
    → p x k j ≡ true
unfolding all_bits
all_bits_sound p h x k j hx hk hj = holds_to-true (p x k) 8 j hj (
    holds_to-true (λ k. holds_to (p x k) 8) 8 k hk
      (holds_to-true (λ x. holds_to (λ k. holds_to (p x k) 8) 8) 256 x hx h))

set_table :
    all_bits (λ x k j. same (is_clear (set_bit x k) j) (not (k == j) && is_clear x j)) ≡ true
unfolding all_bits holds_to same
set_table = refl

clear_table : all_bits (λ x k j. same (is_clear (clear_bit x k) j) (k == j || is_clear x j)) ≡ true
unfolding all_bits holds_to same
clear_table = refl

bound_table : all_bits (λ x k j. ltb (set_bit x k) 256 && ltb (clear_bit x k) 256) ≡ true
unfolding all_bits holds_to
bound_table = refl

pub clear-set_bit :
    (x k j : ℕ)
    → x < 256
    → k < 8
    → j < 8
    → is_clear (set_bit x k) j ≡ (not (k == j) && is_clear x j)
clear-set_bit x k j hx hk hj =
    eq_of_same (is_clear (set_bit x k) j) (not (k == j) && is_clear x j) (
      all_bits_sound (λ x k j. same (is_clear (set_bit x k) j) (not (k == j) && is_clear x j))
        set_table x k j hx hk hj)

pub clear-clear_bit :
    (x k j : ℕ) → x < 256 → k < 8 → j < 8 → is_clear (clear_bit x k) j ≡ (k == j || is_clear x j)
clear-clear_bit x k j hx hk hj = eq_of_same (is_clear (clear_bit x k) j) (k == j || is_clear x j) (
    all_bits_sound (λ x k j. same (is_clear (clear_bit x k) j) (k == j || is_clear x j)) clear_table
      x k j hx hk hj)

pub bits-bound : (x k : ℕ) → x < 256 → k < 8 → (set_bit x k < 256) × (clear_bit x k < 256)
bits-bound x k hx hk =
    let t =
      all_bits_sound (λ x k j. ltb (set_bit x k) 256 && ltb (clear_bit x k) 256) bound_table x k 0
        hx hk (omega arith) in
    bounds (set_bit x k) (clear_bit x k) t
  where
    bounds : (a b : ℕ) → (ltb a 256 && ltb b 256) ≡ true → (a < 256) × (b < 256)
    bounds a b h = ground arith
