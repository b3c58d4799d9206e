-- ===== src/Strings/Compare.antt =====
-- memcmp, strncmp and strlen of string.c, against the list of bytes that a text has.
use ut_os.Base.{
  ℕ, zero, suc, ◌+◌, ◌≤◌, ◌<◌, ◌≡◌, ◌⊎◌, ◌↔◌, refl, ltb, ◌==◌, if◌then◌else◌, arith, none, some,
  List, [], ◌∷◌, length,
}
use ut_os.Strings.{Memory, store, memcmp, strncmp, strlen}

-- Every byte is below 256.
abbrev pub IsBytes : Memory → Type 0
IsBytes m = (a : ℕ) → m a < 256

-- The `n` bytes from `p` on.
abbrev pub bytes : Memory → ℕ → ℕ → List ℕ
bytes m p zero = []
bytes m p (suc n) = m p ∷ bytes m (p + 1) n

-- The text at `p`: its bytes up to the first NUL, and `n` of them at most.
unfoldable pub text : Memory → ℕ → ℕ → List ℕ
text m p zero = []
text m p (suc n) = let rest = text m (p + 1) n in if m p == 0 then [] else m p ∷ rest

-- memcmp returns 0 exactly when the two ranges hold the same bytes.
pub memcmp-eq_zero :
    (m : Memory) (s1 s2 n : ℕ) → IsBytes m → (memcmp m s1 s2 n ≡ 0) ↔ (bytes m s1 n ≡ bytes m s2 n)
unfolding memcmp
memcmp-eq_zero m s1 s2 zero b = (λ _. refl, λ _. refl)
memcmp-eq_zero m s1 s2 (suc n) b = (
  λ h. ground (arith, b s1, b s2, (memcmp-eq_zero m (s1 + 1) (s2 + 1) n b).0),
  λ h. ground (arith, b s1, b s2, (memcmp-eq_zero m (s1 + 1) (s2 + 1) n b).1),
)

-- strncmp returns 0 exactly when the texts at the two addresses are the same, where a text ends at
-- its first NUL and has `n` bytes at most.
pub strncmp-eq_zero :
    (m : Memory) (p q n : ℕ) → IsBytes m → (strncmp m p q n ≡ 0) ↔ (text m p n ≡ text m q n)
unfolding strncmp text
strncmp-eq_zero m p q zero b = (λ _. refl, λ _. refl)
strncmp-eq_zero m p q (suc n) b = (
  λ h. ground (arith, b p, b q, (strncmp-eq_zero m (p + 1) (q + 1) n b).0),
  λ h. ground (arith, b p, b q, (strncmp-eq_zero m (p + 1) (q + 1) n b).1),
)

-- With fuel for `f` bytes strlen returns the number of bytes before the first NUL, if a NUL is among
-- those `f` bytes, and otherwise runs out of fuel.
pub strlen_lem :
    (f : ℕ) (m : Memory) (s : ℕ)
    → strlen f m s ≡ (if ltb (length (text m s f)) f then some (length (text m s f)) else none)
unfolding strlen text
strlen_lem zero m s = refl
strlen_lem (suc f) m s = ground (arith, strlen_lem f m (s + 1))

-- A store outside the range of a text leaves the text alone.
pub text-store :
    (m : Memory) (a v p n : ℕ) → (a < p) ⊎ (p + n ≤ a) → text (store m a v) p n ≡ text m p n
unfolding text
text-store m a v p zero h = refl
text-store m a v p (suc n) h = ground (arith, text-store m a v (p + 1) n)

pub length-text-le : (m : Memory) (p n : ℕ) → length (text m p n) ≤ n
unfolding text
length-text-le m p zero = omega arith
length-text-le m p (suc n) = ground (arith, length-text-le m (p + 1) n)
