-- ===== src/Base/Members.antt =====
-- Membership in lists of numbers by recursion, which the tactics read, and arrays as functions.
use Prim.Native.Nat.{ℕ}
use mathlib.Core.Path.{◌≡◌}
use mathlib.Core.Logic.{◌≢◌, ◌⊎◌, inl, inr}
use mathlib.Core.List.{List, [], ◌∷◌, ◌++◌}
use native.Mathlib.Omega.{arith}
use ut_os.Base.Tests.{if◌then◌else◌, ◌==◌}

-- `v` is none of the numbers.
abbrev pub IsOther : ℕ → List ℕ → Type 0
IsOther v [] = Unit {0}
IsOther v (p ∷ ps) = (v ≢ p) × IsOther v ps

abbrev pub IsDistinct : List ℕ → Type 0
IsDistinct [] = Unit {0}
IsDistinct (x ∷ xs) = IsOther x xs × IsDistinct xs

abbrev pub In : ℕ → List ℕ → Type 0
In v [] = ⊥
In v (x ∷ xs) = (v ≡ x) ⊎ In v xs

pub IsOther-In : (v u : ℕ) (xs : List ℕ) → IsOther v xs → In u xs → v ≢ u
IsOther-In v u [] o i = elim i [ ]
IsOther-In v u (x ∷ xs) o (inl e) = ground arith
IsOther-In v u (x ∷ xs) o (inr i) = IsOther-In v u xs o.1 i

pub IsOther-append : (v : ℕ) (xs ys : List ℕ) → IsOther v (xs ++ ys) → IsOther v xs × IsOther v ys
IsOther-append v [] ys o = (tt, o)
IsOther-append v (x ∷ xs) ys o = let (a, b) = IsOther-append v xs ys o.1 in ((o.0, a), b)

pub append-IsOther : (v : ℕ) (xs ys : List ℕ) → IsOther v xs → IsOther v ys → IsOther v (xs ++ ys)
append-IsOther v [] ys a b = b
append-IsOther v (x ∷ xs) ys a b = (a.0, append-IsOther v xs ys a.1 b)

-- `a[i] = x`
abbrev pub update {ℓ} : {A : Type ℓ} → (ℕ → A) → ℕ → A → ℕ → A
update f i x j = if i == j then x else f j
