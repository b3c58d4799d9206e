-- ===== src/FileSystem/Bitmap.antt =====
-- The bitmap of the free blocks: what balloc and bfree do to it.
use ut_os.Base.{
  ℕ, zero, suc, ◌+◌, ◌-◌, ◌/◌, ◌%◌, ◌≤◌, ◌<◌, ◌≡◌, ◌⊎◌, refl, inl, inr, ◌∙◌, ◌==◌, ltb, Bool,
  Bool-cases, ltb→lt, true, false, Option, none, some, update, arith,
}
use ut_os.Strings.{Memory}
use ut_os.FileSystem.{
  Superblock, Blocks, map_block, is_clear, bits_per_block, bzero, find_clear, mark_used,
  balloc_from,
}

-- Every byte of every block is below 256.
abbrev pub AreBytes : Blocks → Type 0
AreBytes blocks = (b a : ℕ) → blocks b a < 256

-- The bit of block `b` is 0.
abbrev pub is_free : Superblock → Blocks → ℕ → Bool
is_free sb blocks b = is_clear (blocks (map_block sb b) (b % bits_per_block / 8)) (b % 8)

module _ (sb : Superblock) where
  -- What the inner loop finds from bit `bi` on: the first clear bit of a block below the size.
  find_clear_lem :
      (map : Memory) (b n bi : ℕ)
      → ((find_clear sb map b n bi ≡ none)
          × ((j : ℕ)
              → bi ≤ j
              → j < bi + n
              → b + j < sb.size
              → is_clear (map (j / 8)) (j % 8) ≡ false))
        ⊎ ((k : ℕ) × ((find_clear sb map b n bi ≡ some k)
              × ((bi ≤ k)
                  × ((k < bi + n)
                      × ((b + k < sb.size)
                          × ((is_clear (map (k / 8)) (k % 8) ≡ true)
                              × ((j : ℕ)
                                  → bi ≤ j
                                  → j < k
                                  → is_clear (map (j / 8)) (j % 8) ≡ false)))))))
  unfolding find_clear
  find_clear_lem map b zero bi = inl (refl, λ j l u s. absurd (omega arith))
  find_clear_lem map b (suc n) bi = elim (Bool-cases (ltb (b + bi) sb.size)) [
    | inr out ↦ inl (ground arith, λ j l u s. absurd (ground arith))
    | inl low ↦ elim (Bool-cases (is_clear (map (bi / 8)) (bi % 8))) [
      | inl clear ↦ inr (
        bi,
        (
          ground arith,
          (omega arith, (omega arith, (ground arith, (clear, λ j l u. absurd (omega arith))))),
        ),
      )
      | inr set ↦ elim (find_clear_lem map b n (bi + 1)) [
        | inl h ↦ inl (
          ground (arith, h.0),
          λ j l u s.
              first (λ j. is_clear (map (j / 8)) (j % 8)) j l set (λ l'. h.1 j l' (omega arith) s),
        )
        | inr h ↦ inr (
          h.0,
          (
            ground (arith, h.1.0),
            (
              omega (arith, h.1.1.0),
              (
                omega (arith, h.1.1.1.0),
                (
                  h.1.1.1.1.0,
                  (
                    h.1.1.1.1.1.0,
                    λ j l u.
                        first (λ j. is_clear (map (j / 8)) (j % 8)) j l set
                          (λ l'. h.1.1.1.1.1.1 j l' u),
                  ),
                ),
              ),
            ),
          ),
        )
      ]
    ]
  ]
    where
      first :
          (p : ℕ → Bool) (j : ℕ) → bi ≤ j → p bi ≡ false → (bi + 1 ≤ j → p j ≡ false) → p j ≡ false
      first p j l h rest = elim (Bool-cases (bi == j)) [
        | inl e ↦ (let e' : j ≡ bi = ground arith in rw e' h)
        | inr n ↦ rest (ground arith)
      ]

  -- Block `k` is the first free one from `b` on.
  pub record IsNextFree (blocks : Blocks) (b k : ℕ) : Type 0 where
    pub from : b ≤ k
    pub below : k < sb.size
    pub free : is_free sb blocks k ≡ true
    pub earlier : (j : ℕ) → b ≤ j → j < k → is_free sb blocks j ≡ false

  -- The blocks when `k` is taken.
  abbrev pub taken : Blocks → ℕ → Blocks
  taken blocks k =
      let at = map_block sb k in
      bzero k (update blocks at (mark_used (k % bits_per_block) (blocks at)))

  abbrev pub NoFree : Blocks → ℕ → Type 0
  NoFree blocks b = (j : ℕ) → b ≤ j → j < sb.size → is_free sb blocks j ≡ false

  -- The bit of a block is one of the bitmap block that starts at `b`.
  is_free-within :
      (blocks : Blocks) (b j : ℕ)
      → b % bits_per_block ≡ 0
      → b ≤ j
      → j < b + bits_per_block
      → is_free sb blocks j ≡ is_clear (blocks (map_block sb b) ((j - b) / 8)) ((j - b) % 8)
  is_free-within blocks b j h l u =
      let e1 : map_block sb j ≡ map_block sb b = omega arith in
      let e2 : j % bits_per_block ≡ j - b = omega arith in
      let e3 : j % 8 ≡ (j - b) % 8 = omega arith in rw (e1, e2, e3) refl

  abbrev pub Outcome : Blocks → ℕ → Option (ℕ × Blocks) → Type 0
  Outcome blocks b r =
      ((r ≡ none) × NoFree blocks b)
      ⊎ ((k : ℕ) × ((r ≡ some (k, taken blocks k)) × IsNextFree blocks b k))

  -- A bitmap block without a free bit is passed over.
  skip_lem :
      (blocks : Blocks) (b c : ℕ) (r : Option (ℕ × Blocks))
      → ((j : ℕ) → b ≤ j → j < c → j < sb.size → is_free sb blocks j ≡ false)
      → b ≤ c
      → Outcome blocks c r
      → Outcome blocks b r
  skip_lem blocks b c r used le (inl h) = inl (
    h.0,
    λ j l s. elim (Bool-cases (ltb j c)) [
      | inl low ↦ used j l (ltb→lt j c low) s
      | inr high ↦ h.1 j (ground arith) s
    ],
  )
  skip_lem blocks b c r used le (inr (k, h)) = inr (
    k,
    (
      h.0,
      record {
        from = omega (arith, h.1.from);
        below = h.1.below;
        free = h.1.free;
        earlier = λ j l u. elim (Bool-cases (ltb j c)) [
          | inl low ↦ used j l (ltb→lt j c low) (omega (arith, h.1.below))
          | inr high ↦ h.1.earlier j (ground arith) u
        ];
      },
    ),
  )

  at_block :
      (blocks : Blocks) (b k : ℕ)
      → b % bits_per_block ≡ 0
      → k < 0 + bits_per_block
      → ◌≡◌ {A = Option (ℕ × Blocks)}
          (some (
            b + k,
            bzero (b + k) (update blocks (map_block sb b) (mark_used k (blocks (map_block sb b)))),
          ))
          (some (b + k, taken blocks (b + k)))
  at_block blocks b k h l =
      let e1 : map_block sb (b + k) ≡ map_block sb b = omega arith in
      let e2 : (b + k) % bits_per_block ≡ k = omega arith in rw (e1, e2) refl

  pub balloc_from_lem :
      (blocks : Blocks) (fuel b : ℕ)
      → b % bits_per_block ≡ 0
      → sb.size < b + fuel
      → Outcome blocks b (balloc_from sb fuel b blocks)
  unfolding balloc_from
  balloc_from_lem blocks zero b h e = inl (refl, λ j l s. absurd (omega arith))
  balloc_from_lem blocks (suc fuel) b h e = elim (Bool-cases (ltb b sb.size)) [
    | inr out ↦ inl (ground arith, λ j l s. absurd (ground arith))
    | inl low ↦ elim (find_clear_lem (blocks (map_block sb b)) b bits_per_block 0) [
      | inl f ↦
          (let step : balloc_from sb (suc fuel) b blocks
                ≡ balloc_from sb fuel (b + bits_per_block) blocks =
              ground (arith, f.0) in
            rw step (
              skip_lem blocks b (b + bits_per_block)
                (balloc_from sb fuel (b + bits_per_block) blocks)
                (λ j l u s.
                  rw (is_free-within blocks b j h l u)
                    (f.1 (j - b) (omega arith) (omega arith) (omega arith)))
                (omega arith)
                (balloc_from_lem blocks fuel (b + bits_per_block) (omega arith) (omega arith))))
      | inr (k, f) ↦
          (let step : balloc_from sb (suc fuel) b blocks
                ≡ some (
                  b + k,
                  bzero (b + k)
                      (update blocks (map_block sb b) (mark_used k (blocks (map_block sb b)))),
                ) =
              ground (arith, f.0) in
            inr (
              b + k,
              (
                step ∙ at_block blocks b k h f.1.1.0,
                record {
                  from = omega arith;
                  below = f.1.1.1.0;
                  free =
                      (rw (is_free-within blocks b (b + k) h (omega arith) (omega (arith, f.1.1.0)))
                        (let e : b + k - b ≡ k = omega arith in rw e f.1.1.1.1.0));
                  earlier = λ j l u.
                      rw (is_free-within blocks b j h l (omega (arith, f.1.1.0)))
                        (f.1.1.1.1.1 (j - b) (omega arith) (omega arith));
                },
              ),
            ))
    ]
  ]
