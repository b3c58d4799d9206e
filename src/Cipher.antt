-- ===== src/Cipher.antt =====
-- encode.c and decode.c, the two user programs that shift the letters of a text. The text is in the
-- byte memory of Strings; `write` gives the number of bytes that the system call writes.
pub mod Shift
pub mod Tests
use ut_os.Base.{
  ℕ, zero, suc, ◌+◌, ◌-◌, ◌%◌, ◌==◌, leb, Bool, true, false, ◌&&◌, not, if◌then◌else◌, Option, none,
  some, List, [], ◌∷◌, ◌++◌,
}
use ut_os.Strings.{Memory, store}

-- The sum of the last two digits of the three ids.
abbrev pub ids_sum : ℕ
ids_sum = 810101408 % 100 + 810101561 % 100 + 810101560 % 100

-- `(key%26+26)%26`
abbrev pub encode_key : ℕ
encode_key = (ids_sum % 26 + 26) % 26

-- `((-key)%26+26)%26`, where the remainder has the sign of `-key`.
abbrev pub decode_key : ℕ
decode_key = (26 - ids_sum % 26) % 26

-- One character: the letters `a` to `z` are 97 to 122, `A` to `Z` 65 to 90.
abbrev pub shift_char : ℕ → ℕ → ℕ
shift_char key c =
    if leb 97 c && leb c 122
    then (c + key - 97) % 26 + 97
    else (if leb 65 c && leb c 90 then (c + key - 65) % 26 + 65 else c)

-- The loop over the text at `a` from place `i` on, with fuel: the length and the memory.
pub shift_text : ℕ → ℕ → Memory → ℕ → ℕ → Option (ℕ × Memory)
shift_text zero key m a i = none
shift_text (suc fuel) key m a i =
    let rest = shift_text fuel key (store m (a + i) (shift_char key (m (a + i)))) a (i + 1) in
    if m (a + i) == 0 then some (i, m) else rest

module _ (write : ℕ → Memory → ℕ → ℕ → ℕ) where
  -- The result tells whether the program goes on: it exits when the write is short.
  pub encode : ℕ → ℕ → Memory → ℕ → Option (Bool × Memory)
  unfolding shift_text
  encode fuel fd m text = elim (shift_text fuel encode_key m text 0) [
    | none ↦ none
    | some r ↦ some (write fd r.1 text r.0 == r.0, r.1)
  ]

  pub decode : ℕ → ℕ → Memory → ℕ → Option (Bool × Memory)
  unfolding shift_text
  decode fuel fd m text = elim (shift_text fuel decode_key m text 0) [
    | none ↦ none
    | some r ↦ some (write fd r.1 text r.0 == r.0, r.1)
  ]

-- The arguments behind the name of the program, with spaces between them, and a newline.
pub merge_argv : List (List ℕ) → List ℕ
merge_argv [] = 10 ∷ []
merge_argv (arg ∷ []) = arg ++ (10 ∷ [])
merge_argv (arg ∷ (next ∷ args)) = arg ++ (32 ∷ merge_argv (next ∷ args))
