-- ===== src/FileSystem/Write.antt =====
-- writei of fs.c: it writes exactly the bytes asked for.
use ut_os.Base.{
  ℕ, zero, suc, ◌+◌, ◌-◌, ◌*◌, ◌/◌, ◌%◌, ◌≤◌, ◌<◌, ◌≡◌, refl, inl, inr, sym, ap, subst, ◌∙◌, ltb,
  leb, Bool-cases, true, ◌&&◌, if◌then◌else◌, some, update, arith,
}
use ut_os.Strings.{Memory}
use ut_os.Strings.Compare.{IsBytes}
use ut_os.FileSystem.{Superblock, Blocks, block_size, max_file}
use ut_os.FileSystem.Inode.{Inode}
use ut_os.FileSystem.Content.{min, copy_between, bmap, write_blocks}
use ut_os.FileSystem.Owned.{byte_at, Owns}
use ut_os.FileSystem.Kept.{count_free}
use ut_os.FileSystem.Mapped.{bmap_lem}
use ut_os.FileSystem.Round.{touched, written-rest, Written, moved-Written}

pub touched-split :
    (off n m : ℕ)
    → 0 < n
    → m ≡ min n (block_size - off % block_size)
    → touched off n ≡ touched off m + touched (off + m) (n - m)
touched-split off n m pos e = ground arith

module _ (sb : Superblock) (inum : ℕ) where
  -- A round, and then the rest.
  Written-trans :
      (b1 : Blocks) (i1 : Inode) (b2 : Blocks) (i2 : Inode) (b3 : Blocks) (i3 : Inode)
      (mem : Memory) (src off n m : ℕ)
      → m ≤ n
      → touched off n ≡ touched off m + touched (off + m) (n - m)
      → Written sb inum b1 i1 mem src off m b2 i2
      → Written sb inum b2 i2 mem (src + m) (off + m) (n - m) b3 i3
      → Written sb inum b1 i1 mem src off n b3 i3
  Written-trans b1 i1 b2 i2 b3 i3 mem src off n m l t s r = record {
    owns = r.owns;
    content = λ i li.
        r.content i li
        ∙ (ap
              (λ x.
                if leb (off + m) i && ltb i (off + m + (n - m))
                then mem (src + m + (i - (off + m)))
                else x)
              (s.content i li)
            ∙ written-rest sb inum (byte_at b1 i1.addrs) mem src off n m i l);
    free = omega (arith, s.free, r.free, t);
    inode = r.inode ∙ ap {A = Inode} {B = Inode} (λ x. record x { addrs = i3.addrs }) s.inode;
  }

  pub write_blocks_lem :
      (fuel : ℕ) (ip : Inode) (blocks : Blocks) (mem : Memory) (src off n : ℕ)
      → n < fuel
      → IsBytes mem
      → off + n ≤ max_file * block_size
      → Owns sb inum blocks ip.addrs
      → 2 * touched off n ≤ count_free sb blocks
      → (ip' : Inode) × ((blocks' : Blocks) × ((write_blocks sb fuel ip blocks mem src off n
              ≡ some (ip', blocks'))
            × Written sb inum blocks ip mem src off n blocks' ip'))
  unfolding write_blocks
  write_blocks_lem zero ip blocks mem src off n lt b le o f = absurd (omega arith)
  write_blocks_lem (suc fuel) ip blocks mem src off n lt b le o f = elim (Bool-cases (ltb 0 n)) [
    | inr none_left ↦ (
      ip,
      (
        blocks,
        (
          ground arith,
          record { owns = o; content = λ i l. ground arith; free = omega arith; inode = refl },
        ),
      ),
    )
    | inl more ↦
        (let m = min n (block_size - off % block_size) in
          let pos : 0 < n = ground arith in
          let some_m : 0 < m = ground arith in
          let fits : off % block_size + m ≤ block_size = ground arith in
          let less : m ≤ n = ground arith in
          let split = touched-split off n m pos refl in
          let (a, (ip1, (b1, (e, h)))) =
            bmap_lem sb inum ip (off / block_size) blocks (omega arith) o (ground (arith, f)) in
          let w1 : Written sb inum blocks ip mem src off m
              (update b1 a (copy_between (b1 a) (off % block_size) mem src m)) ip1 =
            subst
              (λ a.
                Written sb inum blocks ip mem src off m
                  (update b1 a (copy_between (b1 a) (off % block_size) mem src m)) ip1)
              h.address
              (moved-Written sb inum b1 ip1.addrs h.kept.owns mem b src off m some_m fits
                (omega arith) (λ z. h.nonzero (sym h.address ∙ z)) ip blocks h.kept ip1 h.inode) in
          let (ip2, (b2, (e2, w2))) =
            write_blocks_lem fuel ip1
              (update b1 a (copy_between (b1 a) (off % block_size) mem src m)) mem (src + m)
              (off + m) (n - m) (omega arith) b (omega arith) w1.owns
              (omega (arith, w1.free, split, f)) in
          (
            ip2,
            (
              b2,
              (
                step fuel ip blocks mem src off n more a ip1 b1 e ∙ e2,
                Written-trans blocks ip
                    (update b1 a (copy_between (b1 a) (off % block_size) mem src m)) ip1 b2 ip2 mem
                    src off n m less split w1 w2,
              ),
            ),
          ))
  ]
    where
      step :
          (fuel : ℕ) (ip : Inode) (blocks : Blocks) (mem : Memory) (src off n : ℕ)
          → ltb 0 n ≡ true
          → (a : ℕ) (ip1 : Inode) (b1 : Blocks)
          → bmap sb ip (off / block_size) blocks ≡ some (a, (ip1, b1))
          → write_blocks sb (suc fuel) ip blocks mem src off n ≡ (
              let m = min n (block_size - off % block_size) in
              write_blocks sb fuel ip1
                (update b1 a (copy_between (b1 a) (off % block_size) mem src m))
                mem
                (src + m)
                (off + m)
                (n - m))
      step fuel ip blocks mem src off n more a ip1 b1 e = ground (arith, e)
