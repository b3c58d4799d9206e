-- ===== src/FileSystem/Stored.antt =====
-- The memmove of writei of fs.c: a store in a block of the content.
use ut_os.Base.{
  ℕ, zero, suc, ◌+◌, ◌-◌, ◌*◌, ◌/◌, ◌%◌, ◌≤◌, ◌<◌, ◌≡◌, ◌≢◌, inl, inr, sym, ap, subst, ◌∙◌, ◌==◌,
  ==→eq, ltb, leb, Bool-cases, true, false, ◌&&◌, if◌then◌else◌, update, arith,
}
use ut_os.Strings.{Memory, store}
use ut_os.Strings.Compare.{IsBytes}
use ut_os.Kalloc.{load_word}
use ut_os.FileSystem.{
  Superblock, Blocks, is_clear, bits_per_block, block_size, n_direct, max_file, map_block,
}
use ut_os.FileSystem.Bitmap.{is_free}
use ut_os.FileSystem.Inode.{inode_block}
use ut_os.FileSystem.Content.{copy_between}
use ut_os.FileSystem.Owned.{entry, place, byte_at, IsOwn, Owns}
use ut_os.FileSystem.Kept.{count_free, count-same}

-- The memory `dst` with `n` bytes of `src` from `s` on at `d`.
pub copy_between_lem :
    (dst : Memory) (d : ℕ) (src : Memory) (s n x : ℕ)
    → copy_between dst d src s n x ≡ (if leb d x && ltb x (d + n) then src (s + (x - d)) else dst x)
unfolding copy_between
copy_between_lem dst d src s zero x = ground arith
copy_between_lem dst d src s (suc n) x = ground (
  arith,
  copy_between_lem (store dst d (src s)) (d + 1) src (s + 1) n x,
  ap src (here d x s),
  ap src (next d x s),
)
  where
    here : (d x s : ℕ) → (if d == x then s else s + (x - d)) ≡ s + (x - d)
    here d x s = ground arith

    next : (d x s : ℕ) → (if ltb d x then s + 1 + (x - (d + 1)) else s + (x - d)) ≡ s + (x - d)
    next d x s = ground arith

module _ (sb : Superblock) (inum : ℕ) where
  -- Only block `a` changes, and it is no bitmap block: the bits stay.
  pub is_free-update :
      (blocks : Blocks) (a : ℕ) (m : Memory) (i : ℕ)
      → map_block sb i ≢ a
      → is_free sb (update blocks a m) i ≡ is_free sb blocks i
  is_free-update blocks a m i ne =
      ap (λ f. is_clear (f (i % bits_per_block / 8)) (i % 8)) (same (map_block sb i) ne)
    where
      same : (j : ℕ) → j ≢ a → update blocks a m j ≡ blocks j
      same j ne = ground (arith, ne)

  -- A store in the block of a place of the content: the invariant and the other blocks.
  module _ (blocks : Blocks) (addrs : ℕ → ℕ) (o : Owns sb inum blocks addrs) (bn : ℕ)
      (l : bn < max_file) (nz : entry blocks addrs (place bn) ≢ 0) (m : Memory)
      (bytes : IsBytes m) where
    abbrev pub stored : Blocks
    stored = update blocks (entry blocks addrs (place bn)) m

    place_below : place bn ≤ max_file
    place_below = ground arith

    own : IsOwn sb inum blocks (entry blocks addrs (place bn))
    own = o.own (place bn) place_below nz

    entry-stored : (q : ℕ) → q ≤ max_file → entry stored addrs q ≡ entry blocks addrs q
    entry-stored q lq = elim (Bool-cases (leb q n_direct)) [
      | inl low ↦ ground arith
      | inr high ↦ elim (Bool-cases (addrs n_direct == 0)) [
        | inl missing ↦ ground arith
        | inr there ↦ ground (
          arith,
          ap (λ f. load_word f (4 * (q - 13)))
              (same (addrs n_direct)
                (o.distinct (place bn) n_direct place_below (omega arith) (no_place bn) nz)),
        )
      ]
    ]
      where
        same : (j : ℕ) → entry blocks addrs (place bn) ≢ j → stored j ≡ blocks j
        same j ne = ground (arith, ne)

        no_place : (bn : ℕ) → place bn ≢ n_direct
        no_place bn = ground arith

    pub stored-Owns : Owns sb inum stored addrs
    stored-Owns = record {
      bytes = λ b a. ground (arith, o.bytes b a, bytes a);
      map_used = λ i li.
          ((o.map_used i li).0, still (map_block sb i) (o.map_used i li).0 (o.map_used i li).1);
      boot_used = still 0 (omega (arith, o.inode_below)) o.boot_used;
      inode_used = still (inode_block sb inum) o.inode_below o.inode_used;
      inode_no_map = o.inode_no_map;
      inode_below = o.inode_below;
      small = o.small;
      own = λ q lq.
          subst (λ x. x ≢ 0 → IsOwn sb inum stored x) (sym (entry-stored q lq))
            (λ z. kept (entry blocks addrs q) (o.own q lq z));
      distinct = λ q r lq lr ne.
          subst (λ x. x ≢ 0 → x ≢ entry stored addrs r) (sym (entry-stored q lq))
            (subst (λ y. entry blocks addrs q ≢ 0 → entry blocks addrs q ≢ y)
              (sym (entry-stored r lr)) (o.distinct q r lq lr ne));
    }
      where
        still : (i : ℕ) → i < sb.size → is_free sb blocks i ≡ false → is_free sb stored i ≡ false
        still i li u =
            is_free-update blocks (entry blocks addrs (place bn)) m i (own.no_map i li) ∙ u

        kept : (a : ℕ) → IsOwn sb inum blocks a → IsOwn sb inum stored a
        kept a h = record {
          below = h.below;
          used = still a h.below h.used;
          no_map = h.no_map;
          no_inode = h.no_inode;
        }

    pub stored-count_free : count_free sb stored ≡ count_free sb blocks
    stored-count_free =
        count-same sb.size (is_free sb blocks) (is_free sb stored)
          (λ j lj. is_free-update blocks (entry blocks addrs (place bn)) m j (own.no_map j lj))

    pub stored-byte_at :
        (i : ℕ)
        → i < max_file * block_size
        → byte_at stored addrs i
          ≡ (if i / block_size == bn then m (i % block_size) else byte_at blocks addrs i)
    stored-byte_at i li =
        subst
          (λ a.
            (if a == 0 then 0 else stored a (i % block_size))
            ≡ (if i / block_size == bn then m (i % block_size) else byte_at blocks addrs i))
          (sym (entry-stored (place (i / block_size)) (ground arith)))
          (elim (Bool-cases (i / block_size == bn)) [
            | inl eq ↦
                at (entry blocks addrs (place (i / block_size)))
                  (ap (λ b. entry blocks addrs (place b)) (sym (==→eq (i / block_size) bn eq))) eq
            | inr ne ↦
                off (entry blocks addrs (place (i / block_size)))
                  (λ e. absurd (
                    o.distinct (place bn) (place (i / block_size)) place_below (ground arith)
                      (place_ne bn (i / block_size) ne) nz e))
                  ne
          ])
      where
        at :
            (a : ℕ)
            → entry blocks addrs (place bn) ≡ a
            → (i / block_size == bn) ≡ true
            → (if a == 0 then 0 else stored a (i % block_size)) ≡ (
                if i / block_size == bn
                then m (i % block_size)
                else (if a == 0 then 0 else blocks a (i % block_size)))
        at a e eq = (let a0 : a ≢ 0 = λ z. nz (e ∙ z) in ground (arith, eq, a0, e))

        off :
            (a : ℕ)
            → entry blocks addrs (place bn) ≢ a
            → (i / block_size == bn) ≡ false
            → (if a == 0 then 0 else stored a (i % block_size)) ≡ (
                if i / block_size == bn
                then m (i % block_size)
                else (if a == 0 then 0 else blocks a (i % block_size)))
        off a n eq = ground (arith, eq, n)

        place_ne : (b c : ℕ) → (c == b) ≡ false → place b ≢ place c
        place_ne b c h = ground arith
