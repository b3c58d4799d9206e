-- ===== src/Console/Tests.antt =====
-- Typing at work: the letters `abcd` with the cursor before the `c`.
use ut_os.Base.{ℕ, ◌+◌, ◌<◌, ◌≡◌, refl, arith}
use ut_os.Console.{Input, input_in_mid}
use ut_os.Console.Editing.{backspace-typed}

abbrev line : Input
line = record { buf = λ i. 97 + i; r = 0; w = 0; e = 4 }

backspace-typed_example :
    ◌≡◌ {A = ℕ} (input_in_mid 8 2 (input_in_mid 120 2 line)).e 4
    × ((j : ℕ) → j < 4 → (input_in_mid 8 2 (input_in_mid 120 2 line)).buf j ≡ line.buf j)
backspace-typed_example =
    backspace-typed line 120 8 2 (omega arith) (omega arith) (omega arith)
      (λ e. absurd (omega (arith, e))) refl refl
