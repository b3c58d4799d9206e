-- ===== src/FileSystem/Owned.antt =====
-- The blocks of an inode: the entries that name them, and that they are the inode's own.
use ut_os.Base.{
  ℕ, ◌+◌, ◌-◌, ◌*◌, ◌/◌, ◌%◌, ◌^◌, ◌≤◌, ◌<◌, ◌≡◌, ◌≢◌, refl, inl, inr, sym, ap, subst, ◌∙◌, ◌==◌,
  ==→eq, if-cases, ltb, leb, Bool, Bool-cases, true, false, ◌&&◌, not, if◌then◌else◌, arith,
}
use ut_os.Kalloc.{load_word}
use ut_os.FileSystem.{Superblock, Blocks, block_size, n_direct, max_file, map_block}
use ut_os.FileSystem.Bitmap.{AreBytes, is_free}
use ut_os.FileSystem.Alloc.{IsMapUsed}
use ut_os.FileSystem.Inode.{inode_block}

-- Entry `p` of an inode with the given `addrs`: the direct blocks, the indirect block, and its
-- entries; 0 for none.
abbrev pub entry : Blocks → (ℕ → ℕ) → ℕ → ℕ
entry blocks addrs p =
    if leb p n_direct
    then addrs p
    else (if addrs n_direct == 0 then 0 else load_word (blocks (addrs n_direct)) (4 * (p - 13)))

-- The entry of block `bn` of the content.
abbrev pub place : ℕ → ℕ
place bn = if ltb bn n_direct then bn else bn + 1

-- Byte `i` of the content; a block that is missing reads as zeros.
abbrev pub byte_at : Blocks → (ℕ → ℕ) → ℕ → ℕ
byte_at blocks addrs i =
    let a = entry blocks addrs (place (i / block_size)) in
    if a == 0 then 0 else blocks a (i % block_size)

module _ (sb : Superblock) (inum : ℕ) where
  -- Block `a` is in use, and is not of the bitmap nor the one of the inode.
  pub record IsOwn (blocks : Blocks) (a : ℕ) : Type 0 where
    pub below : a < sb.size
    pub used : is_free sb blocks a ≡ false
    pub no_map : (i : ℕ) → i < sb.size → map_block sb i ≢ a
    pub no_inode : inode_block sb inum ≢ a

  pub record Owns (blocks : Blocks) (addrs : ℕ → ℕ) : Type 0 where
    pub bytes : AreBytes blocks
    pub map_used : IsMapUsed sb blocks
    pub boot_used : is_free sb blocks 0 ≡ false
    pub inode_used : is_free sb blocks (inode_block sb inum) ≡ false
    pub inode_no_map : (i : ℕ) → i < sb.size → map_block sb i ≢ inode_block sb inum
    pub inode_below : inode_block sb inum < sb.size
    pub small : sb.size ≤ 2 ^ 32
    pub own :
        (p : ℕ) → p ≤ max_file → entry blocks addrs p ≢ 0 → IsOwn blocks (entry blocks addrs p)
    pub distinct :
        (p q : ℕ)
        → p ≤ max_file
        → q ≤ max_file
        → p ≢ q
        → entry blocks addrs p ≢ 0
        → entry blocks addrs p ≢ entry blocks addrs q

  -- `blocks'` and `addrs'` have one entry more, `p`, with the block `k`.
  pub record Grown (blocks : Blocks) (addrs : ℕ → ℕ) (p k : ℕ) (blocks' : Blocks) (addrs' : ℕ → ℕ)
      : Type 0 where
    pub entries :
        (q : ℕ)
        → q ≤ max_file
        → entry blocks' addrs' q ≡ (if p == q then k else entry blocks addrs q)
    pub content :
        (q : ℕ)
        → q ≤ max_file
        → q ≢ n_direct
        → entry blocks addrs q ≢ 0
        → blocks' (entry blocks addrs q) ≡ blocks (entry blocks addrs q)
    pub fresh : p ≢ n_direct → (x : ℕ) → x < block_size → blocks' k x ≡ 0
    pub marked :
        (i : ℕ) → i < sb.size → is_free sb blocks' i ≡ (not (k == i) && is_free sb blocks i)
    pub bytes' : AreBytes blocks'

  pub Grown-byte_at :
      (blocks : Blocks) (addrs : ℕ → ℕ) (p k : ℕ) (blocks' : Blocks) (addrs' : ℕ → ℕ)
      → Grown blocks addrs p k blocks' addrs'
      → entry blocks addrs p ≡ 0
      → k ≢ 0
      → (i : ℕ) → i < max_file * block_size
      → byte_at blocks' addrs' i ≡ byte_at blocks addrs i
  Grown-byte_at blocks addrs p k blocks' addrs' g e nz i l =
      rw (g.entries (place (i / block_size)) (ground arith)) (
        go (place (i / block_size)) (entry blocks addrs (place (i / block_size))) refl
          (ground arith) (ground arith))
    where
      go :
          (q a : ℕ)
          → entry blocks addrs q ≡ a
          → q ≤ max_file
          → q ≢ n_direct
          → ◌≡◌ {A = ℕ}
              (let b = if p == q then k else a in if b == 0 then 0 else blocks' b (i % block_size))
              (if a == 0 then 0 else blocks a (i % block_size))
      go q a ea le ne = elim (Bool-cases (p == q)) [
        | inl eq ↦
            (let a0 : a ≡ 0 = sym ea ∙ (subst (λ x. entry blocks addrs x ≡ 0) (==→eq p q eq) e) in
              ground (
                arith,
                eq,
                a0,
                nz,
                g.fresh (λ e12. ne (sym (==→eq p q eq) ∙ e12)) (i % block_size),
              ))
        | inr other ↦ elim (Bool-cases (a == 0)) [
          | inl absent ↦ ground (arith, other, absent)
          | inr there ↦
              (let c : blocks' a ≡ blocks a =
                  subst (λ x. blocks' x ≡ blocks x) ea
                    (g.content q le ne (λ z. absurd (ground (arith, there, sym ea ∙ z)))) in
                ground (arith, other, there, ap (λ f. f (i % block_size)) c))
        ]
      ]

  -- The invariant of `Owns` for an entry more: block `k` was free.
  pub Owns-Grown :
      (blocks : Blocks) (addrs : ℕ → ℕ) (p k : ℕ) (blocks' : Blocks) (addrs' : ℕ → ℕ)
      → Owns blocks addrs
      → Grown blocks addrs p k blocks' addrs'
      → k < sb.size
      → is_free sb blocks k ≡ true
      → Owns blocks' addrs'
  Owns-Grown blocks addrs p k blocks' addrs' o g low free = record {
    bytes = g.bytes';
    map_used =
        λ i l. ((o.map_used i l).0, still (map_block sb i) (o.map_used i l).0 (o.map_used i l).1);
    boot_used = still 0 (omega arith) o.boot_used;
    inode_used = still (inode_block sb inum) o.inode_below o.inode_used;
    inode_no_map = o.inode_no_map;
    inode_below = o.inode_below;
    small = o.small;
    own = λ q l. subst (λ x. x ≢ 0 → IsOwn blocks' x) (sym (g.entries q l)) (own' q l);
    distinct = λ q r lq lr ne.
        subst (λ x. x ≢ 0 → x ≢ entry blocks' addrs' r) (sym (g.entries q lq))
          (subst
            (λ y.
              (if p == q then k else entry blocks addrs q) ≢ 0
              → (if p == q then k else entry blocks addrs q) ≢ y)
            (sym (g.entries r lr)) (distinct' q r lq lr ne));
  }
    where
      still : (i : ℕ) → i < sb.size → is_free sb blocks i ≡ false → is_free sb blocks' i ≡ false
      still i l u = ground (arith, g.marked i l)

      apart : (i : ℕ) → is_free sb blocks i ≡ false → k ≢ i
      apart i u e =
          absurd (clash (is_free sb blocks i) u (subst (λ x. is_free sb blocks x ≡ true) e free))
        where
          clash : (b : Bool) → b ≡ false → b ≡ true → ⊥
          clash b f t = ground arith

      own' :
          (q : ℕ)
          → q ≤ max_file
          → (if p == q then k else entry blocks addrs q) ≢ 0
          → IsOwn blocks' (if p == q then k else entry blocks addrs q)
      own' q l =
          if-cases (λ x. x ≢ 0 → IsOwn blocks' x) (p == q) k (entry blocks addrs q)
            (λ eq nz. record {
              below = low;
              used = ground (arith, g.marked k low);
              no_map = λ i li e. apart (map_block sb i) (o.map_used i li).1 (sym e);
              no_inode = λ e. apart (inode_block sb inum) o.inode_used (sym e);
            })
            (λ other nz. kept (entry blocks addrs q) (o.own q l nz))
        where
          kept : (a : ℕ) → IsOwn blocks a → IsOwn blocks' a
          kept a h = record {
            below = h.below;
            used = still a h.below h.used;
            no_map = h.no_map;
            no_inode = h.no_inode;
          }

      no_k : (q : ℕ) → q ≤ max_file → k ≢ 0 → k ≢ entry blocks addrs q
      no_k q l nz e = apart (entry blocks addrs q) (o.own q l (λ z. nz (e ∙ z))).used e

      distinct' :
          (q r : ℕ)
          → q ≤ max_file
          → r ≤ max_file
          → q ≢ r
          → (if p == q then k else entry blocks addrs q) ≢ 0
          → (if p == q then k else entry blocks addrs q)
            ≢ (if p == r then k else entry blocks addrs r)
      distinct' q r lq lr ne =
          if-cases (λ x. x ≢ 0 → x ≢ (if p == r then k else entry blocks addrs r)) (p == q) k
            (entry blocks addrs q)
            (λ eq nz.
              if-cases (λ y. k ≢ y) (p == r) k (entry blocks addrs r)
                (λ er e. absurd (ne (sym (==→eq p q eq) ∙ ==→eq p r er))) (λ other. no_k r lr nz))
            (λ other nz.
              if-cases (λ y. entry blocks addrs q ≢ y) (p == r) k (entry blocks addrs r)
                (λ er e. no_k q lq (λ z. nz (e ∙ z)) (sym e))
                (λ another. o.distinct q r lq lr ne nz))
