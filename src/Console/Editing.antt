-- ===== src/Console/Editing.antt =====
-- Typing in the middle of a line.
use ut_os.Base.{
  ℕ, zero, suc, ◌+◌, ◌-◌, ◌%◌, ◌^◌, ◌≤◌, ◌<◌, ◌≡◌, ◌≢◌, ap, ◌∙◌, ◌==◌, ltb, leb, true, false, ◌&&◌,
  if◌then◌else◌, update, wrap, arith,
}
use ut_os.Console.{
  input_buf, Input, is_backspace, shift_right, shift_left, shift_buf, update_buffer, input_in_mid,
}

shift_right_lem :
    (buf : ℕ → ℕ) (i n j : ℕ)
    → i < input_buf
    → n ≤ i
    → shift_right buf i n j ≡ (if ltb (i - n) j && leb j i then buf (j - 1) else buf j)
unfolding shift_right
shift_right_lem buf i zero j l k = ground arith
shift_right_lem buf i (suc n) j l k =
    let here : i % input_buf ≡ i = omega arith in
    let before : (i - 1) % input_buf ≡ i - 1 = omega arith in
    rw (here, before)
      (shift_right_lem (update buf i (buf (i - 1))) (i - 1) n j (omega arith) (omega arith)
        ∙ ground (arith, ap buf (at i j)))
  where
    at : (i j : ℕ) → (if i == j then i - 1 else j - 1) ≡ j - 1
    at i j = ground arith

shift_left_lem :
    (buf : ℕ → ℕ) (i n j : ℕ)
    → i + n < input_buf
    → shift_left buf i n j ≡ (if leb i j && ltb j (i + n) then buf (j + 1) else buf j)
unfolding shift_left
shift_left_lem buf i zero j l = ground arith
shift_left_lem buf i (suc n) j l =
    let here : i % input_buf ≡ i = omega arith in
    let after : (i + 1) % input_buf ≡ i + 1 = omega arith in
    rw (here, after)
      (shift_left_lem (update buf i (buf (i + 1))) (i + 1) n j (omega arith)
        ∙ ground (arith, ap buf (at i j)))
  where
    at : (i j : ℕ) → (if i == j then i + 1 else j + 1) ≡ j + 1
    at i j = ground arith

-- The character `c` of a line is typed before place `k`.
abbrev pub inserted : (ℕ → ℕ) → ℕ → ℕ → ℕ → ℕ
inserted line k c j = if ltb j k then line j else (if j == k then c else line (j - 1))

-- The character before place `k` of a line is deleted.
abbrev pub deleted : (ℕ → ℕ) → ℕ → ℕ → ℕ
deleted line k j = if ltb j (k - 1) then line j else line (j + 1)

insert_lem :
    (inp : Input) (c k : ℕ)
    → inp.e < input_buf
    → k ≤ inp.e
    → c ≢ 0
    → is_backspace c ≡ false
    → ((update_buffer c k inp).e ≡ inp.e + 1)
      × ((j : ℕ) → j ≤ inp.e → (update_buffer c k inp).buf j ≡ inserted inp.buf k c j)
unfolding update_buffer shift_buf
insert_lem inp c k l h nz nb = (
  ground (arith, nz, nb),
  λ j u. ground (arith, nz, nb, shift_right_lem inp.buf inp.e (inp.e - k) j l (omega arith)),
)

delete_lem :
    (inp : Input) (c k : ℕ)
    → inp.e < input_buf
    → 0 < k
    → k ≤ inp.e
    → is_backspace c ≡ true
    → ((update_buffer c k inp).e + 1 ≡ inp.e)
      × ((j : ℕ) → j + 1 < inp.e → (update_buffer c k inp).buf j ≡ deleted inp.buf k j)
unfolding update_buffer shift_buf
delete_lem inp c k l pos h b = (
  ground (arith, b),
  λ j u. ground (arith, b, shift_left_lem inp.buf (k - 1) (inp.e - (k - 1)) j (omega arith)),
)

-- A character typed in the middle.
typed_lem :
    (inp : Input) (c back : ℕ)
    → inp.e < input_buf
    → back ≤ inp.e
    → c ≢ 0
    → is_backspace c ≡ false
    → ((input_in_mid c back inp).e ≡ inp.e + 1)
      × ((j : ℕ)
          → j ≤ inp.e
          → (input_in_mid c back inp).buf j ≡ inserted inp.buf (inp.e - back) c j)
unfolding input_in_mid
typed_lem inp c back l h nz nb =
    let t = insert_lem inp c (inp.e - back) l (omega arith) nz nb in
    (ground (arith, nb, t.0), λ j u. ground (arith, nb, t.1 j u))

-- A backspace in the middle, behind a character.
erased_lem :
    (inp : Input) (c back : ℕ)
    → inp.e < input_buf
    → 0 < back
    → back < inp.e
    → is_backspace c ≡ true
    → ((input_in_mid c back inp).e + 1 ≡ inp.e)
      × ((j : ℕ)
          → j + 1 < inp.e
          → (input_in_mid c back inp).buf j ≡ deleted inp.buf (inp.e - back) j)
unfolding input_in_mid
erased_lem inp c back l pos h b =
    let t = delete_lem inp c (inp.e - back) l (omega arith) (omega arith) b in
    let inside : leb (wrap (2 ^ 32 - back)) (wrap (2 ^ 32 - inp.e)) ≡ false = ground arith in
    (ground (arith, b, inside, t.0), λ j u. ground (arith, b, inside, t.1 j u))

deleted-inserted : (line : ℕ → ℕ) (k c j : ℕ) → deleted (inserted line k c) (k + 1) j ≡ line j
deleted-inserted line k c j = ground (arith, ap line (back j))
  where
    back : (j : ℕ) → j + 1 - 1 ≡ j
    back j = omega arith

-- Typing a character other than NUL and backspace and then a backspace `b`, with the cursor in the
-- middle of a line that has room for the character, gives the line back: its length and its
-- characters.
pub backspace-typed :
    (inp : Input) (c b back : ℕ)
    → inp.e + 1 < input_buf
    → 0 < back
    → back ≤ inp.e
    → c ≢ 0
    → is_backspace c ≡ false
    → is_backspace b ≡ true
    → ((input_in_mid b back (input_in_mid c back inp)).e ≡ inp.e)
      × ((j : ℕ) → j < inp.e → (input_in_mid b back (input_in_mid c back inp)).buf j ≡ inp.buf j)
backspace-typed inp c b back l pos h nz nb yb =
    let t = typed_lem inp c back (omega arith) h nz nb in
    let s =
      erased_lem (input_in_mid c back inp) b back (omega (arith, t.0, l)) pos
        (omega (arith, t.0, h)) yb in
    (
      omega (arith, t.0, s.0),
      λ j u.
          s.1 j (omega (arith, t.0, u))
          ∙ (ap (λ k. deleted (input_in_mid c back inp).buf k j) (omega (arith, t.0, h))
              ∙ (deleted-ext (input_in_mid c back inp).buf (inserted inp.buf (inp.e - back) c)
                    (inp.e - back + 1) j (t.1 j (omega (arith, u))) (t.1 (j + 1) (omega (arith, u)))
                  ∙ deleted-inserted inp.buf (inp.e - back) c j)),
    )
  where
    deleted-ext :
        (f g : ℕ → ℕ) (k j : ℕ) → f j ≡ g j → f (j + 1) ≡ g (j + 1) → deleted f k j ≡ deleted g k j
    deleted-ext f g k j a b = ground (arith, a, b)
