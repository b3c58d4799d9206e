-- ===== src/FileSystem/Alloc.antt =====
-- What balloc and bfree do to the free block bitmap and to the blocks.
use ut_os.Base.{
  ℕ, suc, ◌/◌, ◌%◌, ◌<◌, ◌≡◌, ◌≢◌, ◌⊎◌, refl, inl, inr, sym, ap, subst, ◌∙◌, ◌==◌, Bool, Bool-cases,
  true, false, ◌&&◌, ◌||◌, not, if◌then◌else◌, Option, none, some, update, arith,
}
use ut_os.Strings.{Memory}
use ut_os.Strings.Fill.{memset_lem}
use ut_os.FileSystem.{
  Superblock, Blocks, map_block, is_clear, clear_bit, bits_per_block, block_size, bzero, mark_used,
  balloc, bfree,
}
use ut_os.FileSystem.Bits.{clear-set_bit, clear-clear_bit, bits-bound}
use ut_os.FileSystem.Bitmap.{AreBytes, is_free, IsNextFree, taken, balloc_from_lem}

module _ (sb : Superblock) where
  -- What an allocation of block `k` leaves.
  pub record Allocated (blocks : Blocks) (k : ℕ) (blocks' : Blocks) : Type 0 where
    pub first : IsNextFree sb blocks 0 k
    pub zeroed : (x : ℕ) → x < block_size → blocks' k x ≡ 0
    pub marked :
        (i : ℕ) → i < sb.size → is_free sb blocks' i ≡ (not (k == i) && is_free sb blocks i)
    pub others : (i : ℕ) → k ≢ i → map_block sb k ≢ i → blocks' i ≡ blocks i
    pub bytes : AreBytes blocks'

  -- The blocks of the bitmap are blocks of the disk that are marked used.
  abbrev pub IsMapUsed : Blocks → Type 0
  IsMapUsed blocks =
      (i : ℕ)
      → i < sb.size
      → (map_block sb i < sb.size) × (is_free sb blocks (map_block sb i) ≡ false)

  -- A bitmap block is none that balloc takes.
  free-map_block :
      (blocks : Blocks) (k i : ℕ)
      → IsMapUsed blocks
      → is_free sb blocks k ≡ true
      → i < sb.size
      → k ≢ map_block sb i
  free-map_block blocks k i used free l e =
      clash (is_free sb blocks (map_block sb i)) (used i l).1
        (subst (λ x. is_free sb blocks x ≡ true) e free)
    where
      clash : (b : Bool) → b ≡ false → b ≡ true → ⊥
      clash b f t = ground arith

  -- The block of the bitmap that tells of block `i`, after block `k` is taken.
  taken-map_block :
      (blocks : Blocks) (k i : ℕ)
      → k ≢ map_block sb i
      → taken sb blocks k (map_block sb i) ≡ (
          if map_block sb k == map_block sb i
          then mark_used (k % bits_per_block) (blocks (map_block sb i))
          else blocks (map_block sb i))
  unfolding bzero
  taken-map_block blocks k i ne = ground (arith, ne)

  taken_lem :
      (blocks : Blocks) (k : ℕ)
      → AreBytes blocks
      → IsMapUsed blocks
      → IsNextFree sb blocks 0 k
      → Allocated blocks k (taken sb blocks k)
  unfolding bzero
  taken_lem blocks k bytes used next = record {
    first = next;
    zeroed = λ x l.
        zeroed
          (update blocks (map_block sb k)
            (mark_used (k % bits_per_block) (blocks (map_block sb k))))
          x l;
    marked = λ i l.
        rw (taken-map_block blocks k i (free-map_block blocks k i used next.free l)) (marked i);
    others = λ i a b. ground (arith, a, b);
    bytes = λ b a. bytes' (blocks (map_block sb k)) b a;
  }
    where
      zeroed : (bs : Blocks) (x : ℕ) → x < block_size → bzero k bs k x ≡ 0
      zeroed bs x l = ground (arith, memset_lem (bs k) 0 0 block_size x)

      bytes' : (m : Memory) (b a : ℕ) → taken sb blocks k b a < 256
      bytes' m b a = ground (
        arith,
        bytes b a,
        bytes (map_block sb k) a,
        bytes (map_block sb k) (k % bits_per_block / 8),
        memset_lem (blocks k) 0 0 block_size a,
        memset_lem
            (update blocks (map_block sb k)
              (mark_used (k % bits_per_block) (blocks (map_block sb k))) k)
            0 0 block_size a,
        bits-bound (blocks (map_block sb k) (k % bits_per_block / 8)) (k % bits_per_block % 8),
      )

      marked :
          (i : ℕ)
          → is_clear
              ((if map_block sb k == map_block sb i
                  then mark_used (k % bits_per_block) (blocks (map_block sb i))
                  else blocks (map_block sb i))
                (i % bits_per_block / 8))
              (i % 8)
            ≡ (not (k == i) && is_free sb blocks i)
      marked i = ground (
        arith,
        bytes (map_block sb i) (i % bits_per_block / 8),
        clear-set_bit (blocks (map_block sb i) (i % bits_per_block / 8)) (k % bits_per_block % 8)
            (i % 8),
      )

  -- When the bytes of the blocks are bytes and the blocks of the bitmap are marked used, balloc panics
  -- with every block of the disk in use, and otherwise takes the first free block: it marks that one
  -- and no other, zeroes it, and changes no block besides it and its bitmap block.
  pub balloc_lem :
      (blocks : Blocks)
      → AreBytes blocks
      → IsMapUsed blocks
      → ((balloc sb blocks ≡ none) × ((j : ℕ) → j < sb.size → is_free sb blocks j ≡ false))
        ⊎ ((k : ℕ) × ((blocks' : Blocks) × ((balloc sb blocks ≡ some (k, blocks'))
                × Allocated blocks k blocks')))
  unfolding balloc
  balloc_lem blocks bytes used =
      elim (balloc_from_lem sb blocks (suc sb.size) 0 refl (omega arith)) [
        | inl h ↦ inl (h.0, λ j l. h.1 j (omega arith) l)
        | inr (k, h) ↦ inr (k, (taken sb blocks k, (h.0, taken_lem blocks k bytes used h.1)))
      ]

  pub balloc-some :
      (blocks blocks' : Blocks) (k : ℕ)
      → AreBytes blocks
      → IsMapUsed blocks
      → balloc sb blocks ≡ some (k, blocks')
      → Allocated blocks k blocks'
  balloc-some blocks blocks' k bytes used e = elim (balloc_lem blocks bytes used) [
    | inl h ↦ absurd (ground (arith, e, h.0))
    | inr (k2, (blocks2, h)) ↦
        (let same : ◌≡◌ {A = ℕ × Blocks} (k2, blocks2) (k, blocks') =
            ap {A = Option (ℕ × Blocks)} (λ o. elim o [ none ↦ (k, blocks') | some r ↦ r ])
              (sym h.0 ∙ e) in
          subst (λ r. Allocated blocks r.0 r.1) same h.1)
  ]

  -- What a release of block `b` leaves.
  pub record Freed (blocks : Blocks) (b : ℕ) (blocks' : Blocks) : Type 0 where
    pub marked : (i : ℕ) → is_free sb blocks' i ≡ (b == i || is_free sb blocks i)
    pub others : (i : ℕ) → map_block sb b ≢ i → blocks' i ≡ blocks i
    pub bytes : AreBytes blocks'

  -- The blocks when `b` is released.
  abbrev given_back : Blocks → ℕ → Blocks
  given_back blocks b =
      let at = map_block sb b in
      let bi = b % bits_per_block in
      update blocks at (update (blocks at) (bi / 8) (clear_bit (blocks at (bi / 8)) (bi % 8)))

  given_back_lem :
      (blocks : Blocks) (b : ℕ) → AreBytes blocks → Freed blocks b (given_back blocks b)
  given_back_lem blocks b bytes = record {
    marked = λ i. ground (
      arith,
      bytes (map_block sb i) (i % bits_per_block / 8),
      clear-clear_bit (blocks (map_block sb i) (i % bits_per_block / 8)) (b % bits_per_block % 8)
          (i % 8),
    );
    others = λ i n. ground (arith, n);
    bytes = λ i a. ground (
      arith,
      bytes i a,
      bytes (map_block sb b) a,
      bytes (map_block sb b) (b % bits_per_block / 8),
      bits-bound (blocks (map_block sb b) (b % bits_per_block / 8)) (b % bits_per_block % 8),
    );
  }

  -- bfree panics on a free block, and otherwise frees that one and no other, in its bitmap block only.
  pub bfree_lem :
      (blocks : Blocks) (b : ℕ)
      → AreBytes blocks
      → ((bfree sb b blocks ≡ none) × (is_free sb blocks b ≡ true))
        ⊎ ((blocks' : Blocks) × ((bfree sb b blocks ≡ some blocks')
              × ((is_free sb blocks b ≡ false) × Freed blocks b blocks')))
  unfolding bfree
  bfree_lem blocks b bytes = elim (Bool-cases (is_free sb blocks b)) [
    | inl free ↦ inl (ground arith, free)
    | inr busy ↦ inr (given_back blocks b, (ground arith, (busy, given_back_lem blocks b bytes)))
  ]

  -- After a balloc that returns a block, bfree of the block succeeds and every block of the disk is
  -- free or in use as before, when the bytes of the blocks are bytes and the blocks of the bitmap are
  -- marked used.
  pub bfree-balloc :
      (blocks blocks' : Blocks) (k : ℕ)
      → AreBytes blocks
      → IsMapUsed blocks
      → balloc sb blocks ≡ some (k, blocks')
      → (blocks'' : Blocks) × ((bfree sb k blocks' ≡ some blocks'')
          × ((i : ℕ) → i < sb.size → is_free sb blocks'' i ≡ is_free sb blocks i))
  bfree-balloc blocks blocks' k bytes used e =
      let a = balloc-some blocks blocks' k bytes used e in
      elim (bfree_lem blocks' k a.bytes) [
        | inl h ↦ absurd (ground (arith, h.1, a.marked k a.first.below))
        | inr (blocks'', h) ↦
            (blocks'', (h.0, λ i l. ground (arith, h.1.1.marked i, a.marked i l, a.first.free)))
      ]
