-- ===== src/Cipher/Shift.antt =====
-- decode undoes encode.
use ut_os.Base.{
  ℕ, zero, suc, ◌+◌, ◌-◌, ◌≤◌, ◌<◌, ◌≡◌, ◌≢◌, refl, sym, ap, ◌∙◌, ◌==◌, ==→eq, ltb, leb, Bool,
  Bool-cases, inl, inr, true, false, ◌&&◌, if◌then◌else◌, some, arith,
}
use ut_os.Strings.{Memory, store}
use ut_os.Cipher.{encode_key, decode_key, shift_char, shift_text, encode, decode}

-- The memory whose text, from `a` to its NUL at `a + n`, is shifted.
abbrev pub shifted : ℕ → Memory → ℕ → ℕ → ℕ → ℕ
shifted key m a n x = if leb a x && ltb x (a + n) then shift_char key (m x) else m x

shift_more :
    (s : ℕ → ℕ) (m : Memory) (a i n x : ℕ)
    → i < n
    → (if leb (a + (i + 1)) x && ltb x (a + (i + 1) + (n - (i + 1)))
        then s (store m (a + i) (s (m (a + i))) x)
        else store m (a + i) (s (m (a + i))) x)
      ≡ (if leb (a + i) x && ltb x (a + i + (n - i)) then s (m x) else m x)
shift_more s m a i n x l = elim (Bool-cases (a + i == x)) [
  | inl here ↦ ground (arith, here, ap (λ y. s (m y)) (==→eq (a + i) x here))
  | inr other ↦ ground (arith, other)
]

shift_text_lem :
    (fuel key : ℕ) (m : Memory) (a i n : ℕ)
    → i ≤ n
    → n < i + fuel
    → ((j : ℕ) → i ≤ j → j < n → m (a + j) ≢ 0)
    → m (a + n) ≡ 0
    → (m' : Memory) × ((shift_text fuel key m a i ≡ some (n, m'))
        × ((x : ℕ) → m' x ≡ shifted key m (a + i) (n - i) x))
unfolding shift_text
shift_text_lem zero key m a i n le lt h e = absurd (omega arith)
shift_text_lem (suc fuel) key m a i n le lt h e = elim (Bool-cases (i == n)) [
  | inl end ↦
      (let q : i ≡ n = ==→eq i n end in
        let nul : m (a + i) ≡ 0 = ap (λ k. m (a + k)) q ∙ e in
        (m, (ground (arith, nul, q), λ x. ground (arith, q))))
  | inr more ↦
      (let below : i < n = ground arith in
        let m1 = store m (a + i) (shift_char key (m (a + i))) in
        let kept : (j : ℕ) → i + 1 ≤ j → m1 (a + j) ≡ m (a + j) = λ j l. ground arith in
        let (m', (r, w)) =
          shift_text_lem fuel key m1 a (i + 1) n (omega arith) (omega arith)
            (λ j l u z. h j (omega (arith, l)) u (sym (kept j l) ∙ z)) (kept n (omega arith) ∙ e) in
        (
          m',
          (
            ground (arith, h i (omega arith) below, r),
            λ x. w x ∙ shift_more (shift_char key) m a i n x below,
          ),
        ))
]

unshift : (c : ℕ) → shift_char decode_key (shift_char encode_key c) ≡ c
unshift c = ground arith

-- A letter is no NUL, before and after.
shift_char-zero : (c : ℕ) → c ≢ 0 → shift_char encode_key c ≢ 0
shift_char-zero c h = ground (arith, h)

-- The memory after both, for texts that `shifted` describes.
unshifted : (m : Memory) (a n x : ℕ) → shifted decode_key (shifted encode_key m a n) a n x ≡ m x
unshifted m a n x = elim (Bool-cases (leb a x && ltb x (a + n))) [
  | inl inside ↦ back (leb a x && ltb x (a + n)) inside (m x)
  | inr outside ↦ same (leb a x && ltb x (a + n)) outside (m x)
]
  where
    back :
        (b : Bool)
        → b ≡ true
        → (c : ℕ)
        → ◌≡◌ {A = ℕ}
            (let d = if b then shift_char encode_key c else c in
              if b then shift_char decode_key d else d)
            c
    back b h c = rw h (unshift c)

    same :
        (b : Bool)
        → b ≡ false
        → (c : ℕ)
        → ◌≡◌ {A = ℕ}
            (let d = if b then shift_char encode_key c else c in
              if b then shift_char decode_key d else d)
            c
    same b h c = rw h refl

module _ (write : ℕ → Memory → ℕ → ℕ → ℕ) where
  -- On a text of `n` characters before its NUL, with fuel for one more, and a system call that writes
  -- all it is given, encode and then decode go on, and the memory is as it was.
  pub decode-encode :
      (fuel fd : ℕ) (m : Memory) (text n : ℕ)
      → n < fuel
      → ((j : ℕ) → j < n → m (text + j) ≢ 0)
      → m (text + n) ≡ 0
      → ((m : Memory) → write fd m text n ≡ n)
      → (m1 : Memory) × ((encode write fuel fd m text ≡ some (true, m1))
          × ((m2 : Memory) × ((decode write fuel fd m1 text ≡ some (true, m2))
                × ((x : ℕ) → m2 x ≡ m x))))
  unfolding encode decode
  decode-encode fuel fd m text n lt h e w =
      let (m1, (r, s)) =
        shift_text_lem fuel encode_key m text 0 n (omega arith) (omega arith) (λ j l. h j) e in
      let s' : (x : ℕ) → m1 x ≡ shifted encode_key m text n x = λ x. s x ∙ whole encode_key m x in
      let (m2, (r2, t)) =
        shift_text_lem fuel decode_key m1 text 0 n (omega arith) (omega arith)
          (λ j l u z. shift_char-zero (m (text + j)) (h j u) (sym (s' (text + j) ∙ inside j u) ∙ z))
          (s' (text + n) ∙ (outside ∙ e)) in
      (
        m1,
        (
          ground (arith, r, w m1),
          (
            m2,
            (
              ground (arith, r2, w m2),
              λ x.
                  t x
                  ∙ (whole decode_key m1 x
                      ∙ (ap
                            (λ c.
                              if leb text x && ltb x (text + n) then shift_char decode_key c else c)
                            (s' x)
                          ∙ unshifted m text n x)),
            ),
          ),
        ),
      )
    where
      whole :
          (key : ℕ) (m : Memory) (x : ℕ)
          → shifted key m (text + 0) (n - 0) x ≡ shifted key m text n x
      whole key m x =
          let from : text + 0 ≡ text = omega arith in
          let all : n - 0 ≡ n = omega arith in
          ap (λ p. if leb p x && ltb x (p + (n - 0)) then shift_char key (m x) else m x) from
          ∙ ap (λ k. if leb text x && ltb x (text + k) then shift_char key (m x) else m x) all

      inside :
          (j : ℕ)
          → j < n
          → shifted encode_key m text n (text + j) ≡ shift_char encode_key (m (text + j))
      inside j u =
          in_range (leb text (text + j) && ltb (text + j) (text + n)) (ground arith)
            (shift_char encode_key (m (text + j))) (m (text + j))
        where
          in_range : (b : Bool) → b ≡ true → (x y : ℕ) → (if b then x else y) ≡ x
          in_range b h x y = ground (arith, h)

      outside : shifted encode_key m text n (text + n) ≡ m (text + n)
      outside =
          out_of_range (leb text (text + n) && ltb (text + n) (text + n)) (ground arith)
            (shift_char encode_key (m (text + n))) (m (text + n))
        where
          out_of_range : (b : Bool) → b ≡ false → (x y : ℕ) → (if b then x else y) ≡ y
          out_of_range b h x y = ground (arith, h)
