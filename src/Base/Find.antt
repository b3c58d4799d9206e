-- ===== src/Base/Find.antt =====
-- The C loop that looks for the first element of an array that passes a test, and an update in place.
use Prim.Native.Nat.{ℕ, zero, suc, ◌<◌}
use mathlib.Core.Path.{◌≡◌, refl, ap, ◌∙◌}
use mathlib.Core.Logic.{◌≢◌}
use mathlib.Core.Bool.{Bool, true, false, ◌&&◌}
use mathlib.Core.List.{List, [], ◌∷◌}
use mathlib.Core.Option.{Option, none, some}
use mathlib.Core.Option
use mathlib.Core.Logic.{inl, inr}
use native.Mathlib.Omega.{arith}
use ut_os.Base.Tests.{if◌then◌else◌, ltb, ◌==◌, Bool-cases, Option-cases}
use ut_os.Base.Lists.{length, get_or}

module _ {ℓ} {A : Type ℓ} where
  -- The index of the first element that passes the test.
  unfoldable pub find_index : (A → Bool) → List A → Option ℕ
  find_index test [] = none
  find_index test (x ∷ xs) = if test x then some 0 else Option.map suc (find_index test xs)

  abbrev pub modify : (A → A) → List A → ℕ → List A
  modify f [] i = []
  modify f (x ∷ xs) zero = f x ∷ xs
  modify f (x ∷ xs) (suc i) = x ∷ modify f xs i

module _ {ℓ} {A : Type ℓ} where
  -- The element `k` passes the test, and is the first to.
  pub record IsFirst (test : A → Bool) (xs : List A) (d : A) (k : ℕ) : Type 0 where
    pub within : k < length xs
    pub passes : test (get_or xs k d) ≡ true
    pub earlier : (j : ℕ) → j < k → test (get_or xs j d) ≡ false

module _ {ℓ} {A : Type ℓ} (test : A → Bool) (d : A) where
  IsFirst-zero : (x : A) (xs : List A) → test x ≡ true → IsFirst test (x ∷ xs) d 0
  IsFirst-zero x xs hit = record {
    within = omega arith;
    passes = hit;
    earlier = λ j p. absurd (omega arith);
  }

  IsFirst-suc :
      (x : A) (xs : List A) (k : ℕ)
      → test x ≡ false
      → IsFirst test xs d k
      → IsFirst test (x ∷ xs) d (suc k)
  IsFirst-suc x xs k no_hit f = record {
    within = omega (arith, f.within);
    passes = f.passes;
    earlier = below;
  }
    where
      below : (j : ℕ) → j < suc k → test (get_or (x ∷ xs) j d) ≡ false
      below zero p = no_hit
      below (suc j) p = f.earlier j (omega arith)

  pub find_index-some : (xs : List A) (k : ℕ) → find_index test xs ≡ some k → IsFirst test xs d k
  unfolding find_index
  find_index-some [] k h = cc
  find_index-some (x ∷ xs) k h = elim (Bool-cases (test x)) [
    | inl hit ↦ (let e : k ≡ 0 = ground arith in rw e (IsFirst-zero x xs hit))
    | inr miss ↦ elim (Option-cases (find_index test xs)) [
      | inl e ↦ absurd (ground arith)
      | inr (j, e) ↦
          (let e' : k ≡ suc j = ground arith in
            rw e' (IsFirst-suc x xs j miss (find_index-some xs j e)))
    ]
  ]

  pub find_index-none :
      (xs : List A)
      → find_index test xs ≡ none
      → (j : ℕ) → j < length xs
      → test (get_or xs j d) ≡ false
  unfolding find_index
  find_index-none [] h j p = absurd (omega arith)
  find_index-none (x ∷ xs) h zero p = ground arith
  find_index-none (x ∷ xs) h (suc j) p = find_index-none xs (ground arith) j (omega arith)

  -- The two laws again, from what is known of the elements.
  pub find_index_of : (xs : List A) (k : ℕ) → IsFirst test xs d k → find_index test xs ≡ some k
  find_index_of xs k f = elim (Option-cases (find_index test xs)) [
    | inl e ↦ absurd (cc (f.passes, find_index-none xs e k f.within))
    | inr (j, e) ↦ e ∙ ap some (same j k (find_index-some xs j e) f)
  ]
    where
      same : (i j : ℕ) → IsFirst test xs d i → IsFirst test xs d j → i ≡ j
      same i j p q = grind (arith, p.passes, q.passes, p.earlier, q.earlier)

  pub find_index-none_of :
      (xs : List A)
      → ((j : ℕ) → j < length xs → test (get_or xs j d) ≡ false)
      → find_index test xs ≡ none
  find_index-none_of xs h = elim (Option-cases (find_index test xs)) [
    | inl e ↦ e
    | inr (j, e) ↦ (let f = find_index-some xs j e in absurd (cc (f.passes, h j f.within)))
  ]

module _ {ℓ} {A : Type ℓ} (f : A → A) where
  pub length-modify : (xs : List A) (i : ℕ) → length (modify f xs i) ≡ length xs
  length-modify [] i = refl
  length-modify (x ∷ xs) zero = refl
  length-modify (x ∷ xs) (suc i) = ap suc (length-modify xs i)

  pub get_or-modify_self :
      (xs : List A) (i : ℕ) (d : A) → i < length xs → get_or (modify f xs i) i d ≡ f (get_or xs i d)
  get_or-modify_self [] i d h = absurd (omega arith)
  get_or-modify_self (x ∷ xs) zero d h = refl
  get_or-modify_self (x ∷ xs) (suc i) d h = get_or-modify_self xs i d (omega arith)

  pub get_or-modify_ne :
      (xs : List A) (i j : ℕ) (d : A) → i ≢ j → get_or (modify f xs i) j d ≡ get_or xs j d
  get_or-modify_ne [] i j d h = refl
  get_or-modify_ne (x ∷ xs) zero zero d h = absurd (h refl)
  get_or-modify_ne (x ∷ xs) zero (suc j) d h = refl
  get_or-modify_ne (x ∷ xs) (suc i) zero d h = refl
  get_or-modify_ne (x ∷ xs) (suc i) (suc j) d h = get_or-modify_ne xs i j d (λ e. h (ap suc e))

  -- Both laws at once.
  pub get_or-modify :
      (xs : List A) (i j : ℕ) (d : A)
      → get_or (modify f xs i) j d
        ≡ (if i == j && ltb i (length xs) then f (get_or xs j d) else get_or xs j d)
  get_or-modify [] i j d = ground arith
  get_or-modify (x ∷ xs) zero zero d = ground arith
  get_or-modify (x ∷ xs) zero (suc j) d = ground arith
  get_or-modify (x ∷ xs) (suc i) zero d = ground arith
  get_or-modify (x ∷ xs) (suc i) (suc j) d = ground (arith, get_or-modify xs i j d)
