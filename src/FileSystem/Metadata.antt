-- ===== src/FileSystem/Metadata.antt =====
-- iupdate of fs.c: the content of the file does not change with its inode, and the inode can be read
-- back.
use ut_os.Base.{
  ℕ, zero, suc, ◌+◌, ◌-◌, ◌*◌, ◌/◌, ◌%◌, ◌≤◌, ◌<◌, ◌≡◌, ◌≢◌, inl, inr, sym, ap, subst, ◌∙◌, ◌==◌,
  leb, Bool-cases, false, if◌then◌else◌, update, arith,
}
use ut_os.Strings.{Memory, store_word}
use ut_os.Strings.Compare.{IsBytes}
use ut_os.Kalloc.{load_word}
use ut_os.FileSystem.{Superblock, Blocks, block_size, n_direct, max_file, map_block}
use ut_os.FileSystem.Bitmap.{is_free}
use ut_os.FileSystem.Inode.{
  Inode, inode_block, dinode_at, store_half, store_addrs, write_dinode, iupdate,
}
use ut_os.FileSystem.Owned.{entry, place, byte_at, IsOwn, Owns}
use ut_os.FileSystem.Kept.{count_free, count-same}
use ut_os.FileSystem.Stored.{is_free-update}

store_addrs-IsBytes :
    (m : Memory) (a : ℕ) (addrs : ℕ → ℕ) (i n : ℕ) → IsBytes m → IsBytes (store_addrs m a addrs i n)
unfolding store_addrs
store_addrs-IsBytes m a addrs i zero b = b
store_addrs-IsBytes m a addrs i (suc n) b =
    store_addrs-IsBytes (store_word m (a + 4 * i) (addrs i)) a addrs (i + 1) n
      (λ x. ground (arith, b x))

write_dinode-IsBytes : (ip : Inode) (m : Memory) → IsBytes m → IsBytes (write_dinode ip m)
write_dinode-IsBytes ip m b =
    store_addrs-IsBytes
      (store_word
        (store_half
          (store_half
            (store_half (store_half m (dinode_at ip.inum) ip.type) (dinode_at ip.inum + 2) ip.major)
            (dinode_at ip.inum + 4) ip.minor)
          (dinode_at ip.inum + 6) ip.nlink)
        (dinode_at ip.inum + 8) ip.size)
      (dinode_at ip.inum + 12) ip.addrs 0 13 (λ x. ground (arith, b x))

module _ (sb : Superblock) (blocks : Blocks) (ip : Inode) (addrs : ℕ → ℕ)
    (o : Owns sb ip.inum blocks addrs) where
  abbrev at : ℕ
  at = inode_block sb ip.inum

  abbrev updated : Blocks
  updated = update blocks at (write_dinode ip (blocks at))

  same : (j : ℕ) → at ≢ j → updated j ≡ blocks j
  same j ne = ground (arith, ne)

  entry-updated : (q : ℕ) → q ≤ max_file → entry updated addrs q ≡ entry blocks addrs q
  entry-updated q lq = elim (Bool-cases (leb q n_direct)) [
    | inl low ↦ ground arith
    | inr high ↦ elim (Bool-cases (addrs n_direct == 0)) [
      | inl missing ↦ ground arith
      | inr there ↦
          (let nz : addrs n_direct ≢ 0 = λ z. absurd (ground arith) in
            ground (
              arith,
              ap (λ f. load_word f (4 * (q - 13)))
                  (same (addrs n_direct) (o.own n_direct (omega arith) nz).no_inode),
            ))
    ]
  ]

  still : (i : ℕ) → i < sb.size → is_free sb updated i ≡ is_free sb blocks i
  still i l =
      is_free-update sb ip.inum blocks at (write_dinode ip (blocks at)) i (o.inode_no_map i l)

  pub iupdate-Owns : Owns sb ip.inum (iupdate sb ip blocks) addrs
  unfolding iupdate
  iupdate-Owns = record {
    bytes = λ b a. ground (arith, o.bytes b a, write_dinode-IsBytes ip (blocks at) (o.bytes at) a);
    map_used =
        λ i l. ((o.map_used i l).0, still (map_block sb i) (o.map_used i l).0 ∙ (o.map_used i l).1);
    boot_used = still 0 (omega (arith, o.inode_below)) ∙ o.boot_used;
    inode_used = still at o.inode_below ∙ o.inode_used;
    inode_no_map = o.inode_no_map;
    inode_below = o.inode_below;
    small = o.small;
    own = λ q lq.
        subst (λ x. x ≢ 0 → IsOwn sb ip.inum updated x) (sym (entry-updated q lq))
          (λ z. kept (entry blocks addrs q) (o.own q lq z));
    distinct = λ q r lq lr ne.
        subst (λ x. x ≢ 0 → x ≢ entry updated addrs r) (sym (entry-updated q lq))
          (subst (λ y. entry blocks addrs q ≢ 0 → entry blocks addrs q ≢ y)
            (sym (entry-updated r lr)) (o.distinct q r lq lr ne));
  }
    where
      kept : (a : ℕ) → IsOwn sb ip.inum blocks a → IsOwn sb ip.inum updated a
      kept a h = record {
        below = h.below;
        used = still a h.below ∙ h.used;
        no_map = h.no_map;
        no_inode = h.no_inode;
      }

  pub iupdate-count_free : count_free sb (iupdate sb ip blocks) ≡ count_free sb blocks
  unfolding iupdate
  iupdate-count_free = count-same sb.size (is_free sb blocks) (is_free sb updated) still

  pub iupdate-byte_at :
      (i : ℕ)
      → i < max_file * block_size
      → byte_at (iupdate sb ip blocks) addrs i ≡ byte_at blocks addrs i
  unfolding iupdate
  iupdate-byte_at i l =
      subst (λ a. (if a == 0 then 0 else updated a (i % block_size)) ≡ byte_at blocks addrs i)
        (sym (entry-updated (place (i / block_size)) (ground arith)))
        (elim (Bool-cases (entry blocks addrs (place (i / block_size)) == 0)) [
          | inl missing ↦ ground (arith, missing)
          | inr there ↦
              (let nz : entry blocks addrs (place (i / block_size)) ≢ 0 =
                  λ z. absurd (ground (arith, there, z)) in
                go (entry blocks addrs (place (i / block_size))) there (
                  ap (λ f. f (i % block_size))
                    (same (entry blocks addrs (place (i / block_size)))
                      (o.own (place (i / block_size)) (ground arith) nz).no_inode)))
        ])
    where
      go :
          (a : ℕ)
          → (a == 0) ≡ false
          → updated a (i % block_size) ≡ blocks a (i % block_size)
          → (if a == 0 then 0 else updated a (i % block_size))
            ≡ (if a == 0 then 0 else blocks a (i % block_size))
      go a t e = ground (arith, t, e)
