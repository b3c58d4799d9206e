-- ===== src/FileSystem/Kept.antt =====
-- The free blocks counted, and what stays when entries of a file are filled.
use ut_os.Base.{
  ℕ, zero, suc, ◌+◌, ◌*◌, ◌≤◌, ◌<◌, ◌≡◌, ◌≢◌, refl, inl, inr, sym, subst, ◌∙◌, ◌==◌, ==→eq,
  if-cases, Bool, Bool-cases, true, false, ◌&&◌, not, if◌then◌else◌, some, arith,
}
use ut_os.FileSystem.{Superblock, Blocks, block_size, max_file, balloc}
use ut_os.FileSystem.Bitmap.{AreBytes, is_free}
use ut_os.FileSystem.Alloc.{IsMapUsed, Allocated, balloc_lem}
use ut_os.FileSystem.Owned.{entry, byte_at, Owns, Grown, Grown-byte_at, Owns-Grown}

-- The numbers below `n` that pass a test.
abbrev pub count : ℕ → (ℕ → Bool) → ℕ
count zero f = 0
count (suc n) f = (if f n then 1 else 0) + count n f

count-none : (n : ℕ) (f : ℕ → Bool) → ((j : ℕ) → j < n → f j ≡ false) → count n f ≡ 0
count-none zero f h = refl
count-none (suc n) f h =
    ground (arith, h n (omega arith), count-none n f (λ j l. h j (omega arith)))

pub count-same : (n : ℕ) (f g : ℕ → Bool) → ((j : ℕ) → j < n → g j ≡ f j) → count n g ≡ count n f
count-same zero f g h = refl
count-same (suc n) f g h =
    ground (arith, h n (omega arith), count-same n f g (λ j l. h j (omega arith)))

count-without :
    (n k : ℕ) (f g : ℕ → Bool)
    → k < n
    → f k ≡ true
    → ((j : ℕ) → j < n → g j ≡ (not (k == j) && f j))
    → count n g + 1 ≡ count n f
count-without zero k f g l t h = absurd (omega arith)
count-without (suc n) k f g l t h = elim (Bool-cases (k == n)) [
  | inl last ↦
      (let t' : f n ≡ true = subst (λ x. f x ≡ true) (==→eq k n last) t in
        ground (
          arith,
          t',
          h n (omega arith),
          count-same n f g (λ j u. ground (arith, h j (omega arith))),
        ))
  | inr other ↦
      ground (
        arith,
        h n (omega arith),
        count-without n k f g (ground arith) t (λ j u. h j (omega arith)),
      )
]

abbrev pub count_free : Superblock → Blocks → ℕ
count_free sb blocks = count sb.size (is_free sb blocks)

module _ (sb : Superblock) (inum : ℕ) where
  -- From `blocks` and `addrs` to `blocks'` and `addrs'` the content stays, the entries that are there
  -- stay, and `d` blocks at most are taken.
  pub record Kept (d : ℕ) (blocks : Blocks) (addrs : ℕ → ℕ) (blocks' : Blocks) (addrs' : ℕ → ℕ)
      : Type 0 where
    pub owns : Owns sb inum blocks' addrs'
    pub content :
        (i : ℕ) → i < max_file * block_size → byte_at blocks' addrs' i ≡ byte_at blocks addrs i
    pub entries :
        (q : ℕ)
        → q ≤ max_file
        → entry blocks addrs q ≢ 0
        → entry blocks' addrs' q ≡ entry blocks addrs q
    pub free : count_free sb blocks ≤ count_free sb blocks' + d

  pub Kept-refl :
      (d : ℕ) (blocks : Blocks) (addrs : ℕ → ℕ)
      → Owns sb inum blocks addrs
      → Kept d blocks addrs blocks addrs
  Kept-refl d blocks addrs o = record {
    owns = o;
    content = λ i l. refl;
    entries = λ q l nz. refl;
    free = omega arith;
  }

  pub Kept-trans :
      (d e : ℕ) (b1 : Blocks) (a1 : ℕ → ℕ) (b2 : Blocks) (a2 : ℕ → ℕ) (b3 : Blocks) (a3 : ℕ → ℕ)
      → Kept d b1 a1 b2 a2
      → Kept e b2 a2 b3 a3
      → Kept (d + e) b1 a1 b3 a3
  Kept-trans d e b1 a1 b2 a2 b3 a3 s t = record {
    owns = t.owns;
    content = λ i l. t.content i l ∙ s.content i l;
    entries = λ q l nz. t.entries q l (λ z. nz (sym (s.entries q l nz) ∙ z)) ∙ s.entries q l nz;
    free = omega (arith, s.free, t.free);
  }

  -- An allocation for an entry that was missing.
  pub Grown-Kept :
      (blocks : Blocks) (addrs : ℕ → ℕ) (p k : ℕ) (blocks' : Blocks) (addrs' : ℕ → ℕ)
      → Owns sb inum blocks addrs
      → Grown sb inum blocks addrs p k blocks' addrs'
      → entry blocks addrs p ≡ 0
      → k ≢ 0
      → k < sb.size
      → is_free sb blocks k ≡ true
      → Kept 1 blocks addrs blocks' addrs'
  Grown-Kept blocks addrs p k blocks' addrs' o g e nz low free = record {
    owns = Owns-Grown sb inum blocks addrs p k blocks' addrs' o g low free;
    content = Grown-byte_at sb inum blocks addrs p k blocks' addrs' g e nz;
    entries = λ q l nz'. g.entries q l ∙ other q nz';
    free =
        omega (
          arith,
          count-without sb.size k (is_free sb blocks) (is_free sb blocks') low free g.marked,
        );
  }
    where
      other :
          (q : ℕ)
          → entry blocks addrs q ≢ 0
          → (if p == q then k else entry blocks addrs q) ≡ entry blocks addrs q
      other q nz' =
          if-cases (λ x. x ≡ entry blocks addrs q) (p == q) k (entry blocks addrs q)
            (λ eq. absurd (nz' (subst (λ x. entry blocks addrs x ≡ 0) (==→eq p q eq) e)))
            (λ ne. refl)

  -- balloc with a free block returns one.
  pub balloc-free :
      (blocks : Blocks)
      → AreBytes blocks
      → IsMapUsed sb blocks
      → 0 < count_free sb blocks
      → (k : ℕ) × ((blocks' : Blocks) × ((balloc sb blocks ≡ some (k, blocks'))
            × Allocated sb blocks k blocks'))
  balloc-free blocks b u l = elim (balloc_lem sb blocks b u) [
    | inl h ↦ absurd (omega (arith, count-none sb.size (is_free sb blocks) h.1))
    | inr h ↦ h
  ]
