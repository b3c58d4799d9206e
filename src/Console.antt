-- ===== src/Console.antt =====
-- console.c: the line that is being typed, with its cursor. The screen is a device and not part of the
-- state.
pub mod Editing
pub mod Tests
use ut_os.Base.{
  ℕ, zero, suc, ◌+◌, ◌-◌, ◌%◌, ◌^◌, ◌==◌, ltb, leb, Bool, true, false, ◌||◌, ◌&&◌, not,
  if◌then◌else◌, update, wrap, minus_one, sub_word,
}
use ut_os.Strings.{Memory, store}

-- INPUT_BUF.
abbrev pub input_buf : ℕ
input_buf = 128

-- `struct _buffer`.
pub record Input : Type 0 where
  pub buf : ℕ → ℕ
  pub r : ℕ
  pub w : ℕ
  pub e : ℕ

-- BACKSPACE and ___BACKSPACE.
abbrev pub is_backspace : ℕ → Bool
is_backspace c = c == 0x100 || c == 8

-- The loop `for (int i = input.e; i > change_idx; i--)` with `n` rounds left.
pub shift_right : (ℕ → ℕ) → ℕ → ℕ → ℕ → ℕ
shift_right buf i zero = buf
shift_right buf i (suc n) =
    shift_right (update buf (i % input_buf) (buf ((i - 1) % input_buf))) (i - 1) n

-- The loop `for (int i = change_idx-1; i < input.e; i++)`.
pub shift_left : (ℕ → ℕ) → ℕ → ℕ → ℕ → ℕ
shift_left buf i zero = buf
shift_left buf i (suc n) =
    shift_left (update buf (i % input_buf) (buf ((i + 1) % input_buf))) (i + 1) n

-- To the left `change_idx` is positive.
pub shift_buf : Bool → ℕ → Input → Input
unfolding shift_right shift_left
shift_buf right change_idx inp =
    if right
    then record inp { buf = shift_right inp.buf inp.e (inp.e - change_idx); e = wrap (inp.e + 1) }
    else record inp {
      buf = shift_left inp.buf (change_idx - 1) (inp.e - (change_idx - 1));
      e = sub_word inp.e 1;
    }

-- `c` is not negative.
pub update_buffer : ℕ → ℕ → Input → Input
unfolding shift_buf
update_buffer c change_idx inp =
    let inp' = shift_buf true change_idx inp in
    if c == 0
    then inp
    else (if is_backspace c
        then shift_buf false change_idx inp
        else record inp' { buf = update inp'.buf (change_idx % input_buf) c })

-- `_input_in_mid` with the cursor `back` places before the end, `_arrow` being `-back`: the test is
-- one of unsigned words. `_write_from_buffer`, on the way, sets `r` and `w` to 0.
pub input_in_mid : ℕ → ℕ → Input → Input
unfolding update_buffer
input_in_mid c back inp =
    let inp' = update_buffer c (inp.e - back) inp in
    if is_backspace c
    then (if leb (wrap (2 ^ 32 - back)) (wrap (2 ^ 32 - inp.e))
        then inp
        else record inp' { w = 0; r = 0 })
    else record inp' { w = 0; r = 0 }

-- The loop of C('U'): the line is dropped to its last newline, with fuel.
pub kill_line : ℕ → Input → Input
kill_line zero inp = inp
kill_line (suc fuel) inp =
    let rest = kill_line fuel (record inp { e = sub_word inp.e 1 }) in
    if not (inp.e == inp.w) && not (inp.buf (sub_word inp.e 1 % input_buf) == 10) then rest else inp

-- _N_HISTORY.
abbrev pub n_history : ℕ
n_history = 11

-- The line, the lines before it, and the two counters of them.
pub record Console : Type 0 where
  pub input : Input
  pub history : ℕ → Input
  pub current_history : ℕ
  pub last_history : ℕ

-- `_history[_MOD(_last_history++, _N_HISTORY)] = input;` and a new line.
abbrev pub keep_line : Console → Console
keep_line s = record {
  input = record { buf = λ i. 0; r = 0; w = 0; e = 0 };
  history = update s.history (s.last_history % n_history) s.input;
  current_history = s.last_history + 1;
  last_history = s.last_history + 1;
}

-- How the loop of `consoleread` ends: with the process killed, asleep on `input.r`, or done.
pub data Stop : Type 0 where
  killed sleeps finished : Stop

-- The loop of `consoleread` for `n` characters more of `target`, to `dst`; `is_killed` is
-- `myproc()->killed`.
pub read_chars : Bool → ℕ → ℕ → Console → Memory → ℕ → Stop × (ℕ × (Console × Memory))
read_chars is_killed target zero s mem dst = (finished, (0, (s, mem)))
read_chars is_killed target (suc n) s mem dst =
    let c = s.input.buf (s.input.r % input_buf) in
    let s' = record s { input = record s.input { r = s.input.r + 1 } } in
    let mem' = store mem dst c in
    let rest = read_chars is_killed target n s' mem' (dst + 1) in
    if s.input.r == s.input.w
    then (if is_killed then killed else sleeps, (suc n, (s, mem)))
    else (if c == 4
        then (finished, (suc n, (if ltb (suc n) target then s else s', mem)))
        else (if c == 10 then (finished, (n, (keep_line s', mem'))) else rest))

-- `consoleread`, between the unlock and the lock of the inode: the result is -1 for a killed process.
pub consoleread : Bool → Console → Memory → ℕ → ℕ → Stop × (ℕ × (Console × Memory))
unfolding read_chars
consoleread is_killed s mem dst n =
    let r = read_chars is_killed n n s mem dst in
    (r.0, (elim r.0 [ killed ↦ minus_one | sleeps ↦ 0 | finished ↦ n - r.1.0 ], r.1.1))
