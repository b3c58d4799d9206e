-- ===== src/FileSystem/Writei.antt =====
-- writei of fs.c as a whole: the range checks, the bytes and the size.
use ut_os.Base.{
  ℕ, suc, ◌+◌, ◌*◌, ◌≤◌, ◌<◌, ◌≡◌, ◌≢◌, inl, inr, ap, subst, ◌∙◌, ltb, Bool, Bool-cases, true,
  false, if◌then◌else◌, Option, some, arith,
}
use ut_os.Strings.{Memory}
use ut_os.Strings.Compare.{IsBytes}
use ut_os.FileSystem.{Superblock, Blocks, block_size, max_file}
use ut_os.FileSystem.Inode.{Inode, iupdate}
use ut_os.FileSystem.Content.{t_dev, writei, write_blocks}
use ut_os.FileSystem.Owned.{byte_at, Owns}
use ut_os.FileSystem.Kept.{count_free}
use ut_os.FileSystem.Metadata.{iupdate-Owns, iupdate-count_free, iupdate-byte_at}
use ut_os.FileSystem.Round.{touched, written, Written}
use ut_os.FileSystem.Write.{write_blocks_lem}

module _ (sb : Superblock) (has : ℕ → Bool) (dev_write : ℕ → Inode → ℕ → ℕ → Memory → ℕ) where
  -- What writei of `n` bytes at `off` leaves.
  pub record Wrote (blocks : Blocks) (ip : Inode) (mem : Memory) (src off n : ℕ) (blocks' : Blocks)
      (ip' : Inode) : Type 0 where
    pub owns : Owns sb ip.inum blocks' ip'.addrs
    pub content :
        (i : ℕ)
        → i < max_file * block_size
        → byte_at blocks' ip'.addrs i ≡ written (byte_at blocks ip.addrs) off mem src n i
    pub free : count_free sb blocks ≤ count_free sb blocks' + 2 * touched off n
    pub inode :
        ip'
        ≡ record ip { addrs = ip'.addrs; size = if ltb ip.size (off + n) then off + n else ip.size }

  -- The end of writei, after its loop.
  finished :
      (ip : Inode) (blocks : Blocks) (mem : Memory) (src off n : ℕ) (addrs : ℕ → ℕ) (b1 : Blocks)
      → ip.type ≢ t_dev
      → off ≤ ip.size
      → off + n ≤ max_file * block_size
      → write_blocks sb (suc n) ip blocks mem src off n ≡ some (record ip { addrs = addrs }, b1)
      → Written sb ip.inum blocks ip mem src off n b1 (record ip { addrs = addrs })
      → (ip' : Inode) × ((blocks' : Blocks) × ((writei sb has dev_write ip blocks mem src off n
              ≡ some (n, (ip', blocks')))
            × Wrote blocks ip mem src off n blocks' ip'))
  unfolding writei
  finished ip blocks mem src off n addrs b1 ty le max e w =
      elim (Bool-cases (ltb ip.size (off + n))) [
        | inl grows ↦
            (let ip2 = record ip { addrs = addrs; size = off + n } in
              (
                ip2,
                (
                  iupdate sb ip2 b1,
                  (
                    ground (arith, e, ty, grows),
                    record {
                      owns = iupdate-Owns sb b1 ip2 addrs w.owns;
                      content = λ i l. iupdate-byte_at sb b1 ip2 addrs w.owns i l ∙ w.content i l;
                      free = omega (arith, w.free, iupdate-count_free sb b1 ip2 addrs w.owns);
                      inode =
                          ap {A = ℕ} {B = Inode} (λ s. record ip { addrs = addrs; size = s })
                            (size (ltb ip.size (off + n)) (off + n) ip.size grows);
                    },
                  ),
                ),
              ))
        | inr fits ↦ (
          record ip { addrs = addrs },
          (
            b1,
            (
              ground (arith, e, ty, fits),
              record {
                owns = w.owns;
                content = w.content;
                free = w.free;
                inode =
                    ap {A = ℕ} {B = Inode} (λ s. record ip { addrs = addrs; size = s })
                      (same (ltb ip.size (off + n)) (off + n) ip.size fits);
              },
            ),
          ),
        )
      ]
    where
      size : (b : Bool) (x y : ℕ) → b ≡ true → x ≡ (if b then x else y)
      size b x y h = ground (arith, h)

      same : (b : Bool) (x y : ℕ) → b ≡ false → y ≡ (if b then x else y)
      same b x y h = ground (arith, h)

  pub writei_lem :
      (ip : Inode) (blocks : Blocks) (mem : Memory) (src off n : ℕ)
      → ip.type ≢ t_dev
      → off ≤ ip.size
      → off + n ≤ max_file * block_size
      → IsBytes mem
      → Owns sb ip.inum blocks ip.addrs
      → 2 * touched off n ≤ count_free sb blocks
      → (ip' : Inode) × ((blocks' : Blocks) × ((writei sb has dev_write ip blocks mem src off n
              ≡ some (n, (ip', blocks')))
            × Wrote blocks ip mem src off n blocks' ip'))
  unfolding writei
  writei_lem ip blocks mem src off n ty le max b o f =
      let (ip1, (b1, (e, w))) =
        write_blocks_lem sb ip.inum (suc n) ip blocks mem src off n (omega arith) b max o f in
      finished ip blocks mem src off n ip1.addrs b1 ty le max
        (e ∙ ap {A = Inode} {B = Option (Inode × Blocks)} (λ x. some (x, b1)) w.inode)
        (subst (λ x. Written sb ip.inum blocks ip mem src off n b1 x) w.inode w)
