-- ===== src/FileSystem/Map.antt =====
-- bmap of fs.c: it finds or allocates the block of an entry and leaves the content as it is.
use ut_os.Base.{
  ℕ, ◌+◌, ◌-◌, ◌*◌, ◌/◌, ◌%◌, ◌^◌, ◌≤◌, ◌<◌, ◌≡◌, ◌≢◌, inl, inr, sym, ap, subst, ◌∙◌, ◌==◌, leb,
  Bool, Bool-cases, true, false, if◌then◌else◌, update, arith,
}
use ut_os.Strings.{Memory, store_word}
use ut_os.Kalloc.{load_word}
use ut_os.FileSystem.{
  Superblock, Blocks, is_clear, bits_per_block, block_size, n_direct, max_file, map_block,
}
use ut_os.FileSystem.Bitmap.{is_free}
use ut_os.FileSystem.Alloc.{Allocated}
use ut_os.FileSystem.Owned.{entry, IsOwn, Owns, Grown}

load_word-store_word :
    (m : Memory) (p q w : ℕ)
    → w < 2 ^ 32
    → load_word (store_word m (4 * p) w) (4 * q) ≡ (if p == q then w else load_word m (4 * q))
load_word-store_word m p q w h = ground arith

load_word-zeros :
    (m : Memory) (a : ℕ)
    → ((x : ℕ) → x < block_size → m x ≡ 0)
    → a + 3 < block_size
    → load_word m a ≡ 0
load_word-zeros m a z l = ground (
  arith,
  z a (omega arith),
  z (a + 1) (omega arith),
  z (a + 2) (omega arith),
  z (a + 3) (omega arith),
)

module _ (sb : Superblock) (inum : ℕ) (blocks : Blocks) (addrs : ℕ → ℕ)
    (o : Owns sb inum blocks addrs) where
  module _ (k : ℕ) (blocks' : Blocks) (a : Allocated sb blocks k blocks') where
    apart : (i : ℕ) → is_free sb blocks i ≡ false → k ≢ i
    apart i u e =
        clash (is_free sb blocks i) u (subst (λ x. is_free sb blocks x ≡ true) e a.first.free)
      where
        clash : (b : Bool) → b ≡ false → b ≡ true → ⊥
        clash b f t = ground arith

    pub not_zero : k ≢ 0
    not_zero = apart 0 o.boot_used

    -- An own block is as it was.
    same_block :
        (q : ℕ)
        → q ≤ max_file
        → entry blocks addrs q ≢ 0
        → blocks' (entry blocks addrs q) ≡ blocks (entry blocks addrs q)
    same_block q l nz =
        let h = o.own q l nz in
        a.others (entry blocks addrs q) (apart (entry blocks addrs q) h.used)
          (h.no_map k a.first.below)

    -- A direct entry, or the indirect block.
    pub direct-Grown :
        (p : ℕ)
        → p ≤ n_direct
        → addrs p ≡ 0
        → Grown sb inum blocks addrs p k blocks' (update addrs p k)
    direct-Grown p l e = record {
      entries = λ q lq. elim (Bool-cases (leb q n_direct)) [
        | inl low ↦ ground arith
        | inr high ↦ elim (Bool-cases (p == n_direct)) [
          | inl last ↦
              ground
                (arith, not_zero, load_word-zeros (blocks' k) (4 * (q - 13)) a.zeroed (omega arith))
          | inr direct ↦ elim (Bool-cases (addrs n_direct == 0)) [
            | inl missing ↦ ground arith
            | inr there ↦ ground (
              arith,
              ap (λ m. load_word m (4 * (q - 13)))
                  (same_block n_direct (omega arith) (λ z. absurd (ground arith))),
            )
          ]
        ]
      ];
      content = λ q l ne nz. same_block q l nz;
      fresh = λ ne x lx. a.zeroed x lx;
      marked = a.marked;
      bytes' = a.bytes;
    }

    -- An entry of the indirect block, after the store of the new block in it.
    pub indirect-Grown :
        (p : ℕ)
        → n_direct < p
        → p ≤ max_file
        → addrs n_direct ≢ 0
        → entry blocks addrs p ≡ 0
        → Grown sb inum blocks addrs p k
            (update blocks'
              (addrs n_direct)
              (store_word (blocks' (addrs n_direct)) (4 * (p - 13)) k))
            addrs
    indirect-Grown p l u nz e = record {
      entries = λ q lq. elim (Bool-cases (leb q n_direct)) [
        | inl low ↦ ground (arith, l)
        | inr high ↦ ground (
          arith,
          load_word-store_word (blocks' (addrs n_direct)) (p - 13) (q - 13) k
              (omega (arith, a.first.below, o.small)),
          ap (λ m. load_word m (4 * (q - 13))) (same_block n_direct (omega arith) nz),
        )
      ];
      content = λ q l ne nz'.
          no_update (entry blocks addrs q)
            (λ e. o.distinct q n_direct l (omega arith) ne nz' (sym e))
          ∙ same_block q l nz';
      fresh = λ ne x lx. ap (λ m. m x) (no_update k (λ e. own_apart (sym e))) ∙ a.zeroed x lx;
      marked = λ i li. is_free-update i li ∙ a.marked i li;
      bytes' = λ i x. ground (arith, a.bytes i x, a.bytes (addrs n_direct) x);
    }
      where
        indirect : IsOwn sb inum blocks (addrs n_direct)
        indirect = o.own n_direct (omega arith) nz

        own_apart : k ≢ addrs n_direct
        own_apart = apart (addrs n_direct) indirect.used

        blocks'' : Blocks
        blocks'' =
            update blocks' (addrs n_direct) (store_word (blocks' (addrs n_direct)) (4 * (p - 13)) k)

        no_update : (i : ℕ) → addrs n_direct ≢ i → blocks'' i ≡ blocks' i
        no_update i ne = ground (arith, ne)

        is_free-update : (i : ℕ) → i < sb.size → is_free sb blocks'' i ≡ is_free sb blocks' i
        is_free-update i l =
            ap (λ m. is_clear (m (i % bits_per_block / 8)) (i % 8))
              (no_update (map_block sb i) (λ e. indirect.no_map i l (sym e)))
