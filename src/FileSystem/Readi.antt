-- ===== src/FileSystem/Readi.antt =====
-- readi of fs.c: it reads exactly the bytes asked for, up to the end of the file.
use ut_os.Base.{
  ℕ, zero, suc, ◌+◌, ◌-◌, ◌*◌, ◌/◌, ◌%◌, ◌^◌, ◌≤◌, ◌<◌, ◌≡◌, ◌≢◌, refl, inl, inr, sym, ap, subst,
  ◌∙◌, ◌==◌, ltb, leb, Bool, Bool-cases, true, ◌&&◌, if◌then◌else◌, some, arith,
}
use ut_os.Strings.{Memory}
use ut_os.FileSystem.{Superblock, Blocks, block_size, max_file}
use ut_os.FileSystem.Inode.{Inode}
use ut_os.FileSystem.Content.{min, copy_between, t_dev, bmap, readi, read_blocks}
use ut_os.FileSystem.Owned.{entry, place, byte_at, Owns}
use ut_os.FileSystem.Kept.{count_free, Kept, Kept-refl, Kept-trans}
use ut_os.FileSystem.Mapped.{bmap_lem}
use ut_os.FileSystem.Stored.{copy_between_lem}
use ut_os.FileSystem.Round.{touched}
use ut_os.FileSystem.Write.{touched-split}

-- The memory `mem` with `n` bytes of a file from `off` on at `dst`.
abbrev pub loaded : (ℕ → ℕ) → ℕ → Memory → ℕ → ℕ → ℕ → ℕ
loaded file off mem dst n x = if leb dst x && ltb x (dst + n) then file (off + (x - dst)) else mem x

loaded-rest :
    (file : ℕ → ℕ) (off : ℕ) (mem : Memory) (dst n m x : ℕ)
    → m ≤ n
    → loaded file (off + m) (loaded file off mem dst m) (dst + m) (n - m) x
      ≡ loaded file off mem dst n x
loaded-rest file off mem dst n m x l = ground (arith, ap file (shift off dst m x))
  where
    shift :
        (off dst m x : ℕ)
        → (if ltb x (dst + m) then off + (x - dst) else off + m + (x - (dst + m))) ≡ off + (x - dst)
    shift off dst m x = ground arith

-- Files with the same content are read alike.
pub loaded-content :
    (f g : ℕ → ℕ) (off : ℕ) (mem : Memory) (dst n x : ℕ)
    → off + n ≤ max_file * block_size
    → ((i : ℕ) → i < max_file * block_size → f i ≡ g i)
    → loaded f off mem dst n x ≡ loaded g off mem dst n x
loaded-content f g off mem dst n x le h = ground (arith, h (off + (x - dst)))

module _ (sb : Superblock) (inum : ℕ) where
  -- What a read of `n` bytes leaves.
  pub record Read (blocks : Blocks) (ip : Inode) (mem : Memory) (dst off n : ℕ) (ip' : Inode)
      (blocks' : Blocks) (mem' : Memory) : Type 0 where
    pub kept : Kept sb inum (2 * touched off n) blocks ip.addrs blocks' ip'.addrs
    pub loads : (x : ℕ) → mem' x ≡ loaded (byte_at blocks ip.addrs) off mem dst n x
    pub inode : ip' ≡ record ip { addrs = ip'.addrs }

  -- One round: a part of the block of `off`.
  round_lem :
      (blocks : Blocks) (addrs : ℕ → ℕ) (mem : Memory) (dst off m a : ℕ)
      → off % block_size + m ≤ block_size
      → entry blocks addrs (place (off / block_size)) ≡ a
      → a ≢ 0
      → (x : ℕ)
      → copy_between mem dst (blocks a) (off % block_size) m x
        ≡ loaded (byte_at blocks addrs) off mem dst m x
  round_lem blocks addrs mem dst off m a fits e nz x =
      copy_between_lem mem dst (blocks a) (off % block_size) m x
      ∙ elim (Bool-cases (leb dst x && ltb x (dst + m))) [
        | inr outside ↦ ground (arith, outside)
        | inl inside ↦
            (let b : (off + (x - dst)) / block_size ≡ off / block_size =
                ground (arith, fits, inside) in
              let r : (off + (x - dst)) % block_size ≡ off % block_size + (x - dst) =
                ground (arith, fits, inside) in
              ground (
                arith,
                inside,
                at (entry blocks addrs (place ((off + (x - dst)) / block_size))) (off + (x - dst))
                      (ap (λ b. entry blocks addrs (place b)) b ∙ e)
                    ∙ ap (blocks a) r,
              ))
      ]
    where
      at :
          (c i : ℕ)
          → c ≡ a
          → (if c == 0 then 0 else blocks c (i % block_size)) ≡ blocks a (i % block_size)
      at c i h =
          subst (λ c. (if c == 0 then 0 else blocks c (i % block_size)) ≡ blocks a (i % block_size))
            (sym h) (ground (arith, nz))

  -- A round, and then the rest.
  Read-trans :
      (blocks : Blocks) (ip : Inode) (b1 : Blocks) (ip1 ip2 : Inode) (b2 : Blocks)
      (mem mem1 mem2 : Memory) (dst off n m : ℕ)
      → m ≤ n
      → touched off n ≡ touched off m + touched (off + m) (n - m)
      → touched off m ≡ 1
      → off + n ≤ max_file * block_size
      → Kept sb inum 2 blocks ip.addrs b1 ip1.addrs
      → ip1 ≡ record ip { addrs = ip1.addrs }
      → ((x : ℕ) → mem1 x ≡ loaded (byte_at b1 ip1.addrs) off mem dst m x)
      → Read b1 ip1 mem1 (dst + m) (off + m) (n - m) ip2 b2 mem2
      → Read blocks ip mem dst off n ip2 b2 mem2
  Read-trans blocks ip b1 ip1 ip2 b2 mem mem1 mem2 dst off n m less split one le k e loads r =
      record {
        kept =
            subst (λ d. Kept sb inum d blocks ip.addrs b2 ip2.addrs) (omega (arith, split, one))
              (Kept-trans sb inum 2 (2 * touched (off + m) (n - m)) blocks ip.addrs b1 ip1.addrs b2
                ip2.addrs k r.kept);
        loads = λ x.
            r.loads x
            ∙ (ap
                  (λ y.
                    if leb (dst + m) x && ltb x (dst + m + (n - m))
                    then byte_at b1 ip1.addrs (off + m + (x - (dst + m)))
                    else y)
                  (loads x)
                ∙ (loaded-rest (byte_at b1 ip1.addrs) off mem dst n m x less
                    ∙ loaded-content (byte_at b1 ip1.addrs) (byte_at blocks ip.addrs) off mem dst n
                        x le k.content));
        inode = r.inode ∙ ap {A = Inode} {B = Inode} (λ x. record x { addrs = ip2.addrs }) e;
      }

  pub read_blocks_lem :
      (fuel : ℕ) (ip : Inode) (blocks : Blocks) (mem : Memory) (dst off n : ℕ)
      → n < fuel
      → off + n ≤ max_file * block_size
      → Owns sb inum blocks ip.addrs
      → 2 * touched off n ≤ count_free sb blocks
      → (ip' : Inode) × ((blocks' : Blocks) × ((mem' : Memory) × ((read_blocks sb fuel ip blocks mem
                  dst off n
                ≡ some (ip', (blocks', mem')))
              × Read blocks ip mem dst off n ip' blocks' mem')))
  unfolding read_blocks
  read_blocks_lem zero ip blocks mem dst off n lt le o f = absurd (omega arith)
  read_blocks_lem (suc fuel) ip blocks mem dst off n lt le o f = elim (Bool-cases (ltb 0 n)) [
    | inr none_left ↦ (
      ip,
      (
        blocks,
        (
          mem,
          (
            ground arith,
            record {
              kept = Kept-refl sb inum (2 * touched off n) blocks ip.addrs o;
              loads = λ x. ground arith;
              inode = refl;
            },
          ),
        ),
      ),
    )
    | inl more ↦
        (let m = min n (block_size - off % block_size) in
          let pos : 0 < n = ground arith in
          let some_m : 0 < m = ground arith in
          let fits : off % block_size + m ≤ block_size = ground arith in
          let less : m ≤ n = ground arith in
          let one : touched off m ≡ 1 = ground (arith, some_m, fits) in
          let split = touched-split off n m pos refl in
          let (a, (ip1, (b1, (e, h)))) =
            bmap_lem sb inum ip (off / block_size) blocks (omega arith) o (ground (arith, f)) in
          let mem1 = copy_between mem dst (b1 a) (off % block_size) m in
          let (ip2, (b2, (mem2, (e2, r)))) =
            read_blocks_lem fuel ip1 b1 mem1 (dst + m) (off + m) (n - m) (omega arith) (omega arith)
              h.kept.owns (omega (arith, split, f, h.kept.free, one)) in
          (
            ip2,
            (
              b2,
              (
                mem2,
                (
                  step fuel ip blocks mem dst off n more a ip1 b1 e ∙ e2,
                  Read-trans blocks ip b1 ip1 ip2 b2 mem mem1 mem2 dst off n m less split one le
                      h.kept h.inode
                      (round_lem b1 ip1.addrs mem dst off m a fits h.address h.nonzero) r,
                ),
              ),
            ),
          ))
  ]
    where
      step :
          (fuel : ℕ) (ip : Inode) (blocks : Blocks) (mem : Memory) (dst off n : ℕ)
          → ltb 0 n ≡ true
          → (a : ℕ) (ip1 : Inode) (b1 : Blocks)
          → bmap sb ip (off / block_size) blocks ≡ some (a, (ip1, b1))
          → read_blocks sb (suc fuel) ip blocks mem dst off n ≡ (
              let m = min n (block_size - off % block_size) in
              read_blocks sb fuel ip1 b1
                (copy_between mem dst (b1 a) (off % block_size) m)
                (dst + m)
                (off + m)
                (n - m))
      step fuel ip blocks mem dst off n more a ip1 b1 e = ground (arith, e)

module _ (sb : Superblock) (has : ℕ → Bool)
    (dev_read : ℕ → Inode → ℕ → ℕ → Memory → ℕ × Memory) where
  -- The bytes that readi of `n` bytes at `off` reads.
  abbrev pub readable : ℕ → ℕ → ℕ → ℕ
  readable size off n = if ltb size (off + n) then size - off else n

  -- For a file that owns its blocks and is no device, readi at an offset up to its size, which is at
  -- most the maximal size, returns the number of bytes up to the end of the file, `n` at most, and
  -- puts these bytes of the content in the memory at `dst` and nothing else; the content stays. The
  -- offset and `n` add up without overflow, and two blocks for each block read are free, since readi
  -- fills holes.
  pub readi_lem :
      (ip : Inode) (blocks : Blocks) (mem : Memory) (dst off n : ℕ)
      → ip.type ≢ t_dev
      → off ≤ ip.size
      → ip.size ≤ max_file * block_size
      → off + n < 2 ^ 32
      → Owns sb ip.inum blocks ip.addrs
      → 2 * touched off (readable ip.size off n) ≤ count_free sb blocks
      → (ip' : Inode) × ((blocks' : Blocks) × ((mem' : Memory) × ((readi sb has dev_read ip blocks
                  mem dst off n
                ≡ some (readable ip.size off n, (ip', (blocks', mem'))))
              × Read sb ip.inum blocks ip mem dst off (readable ip.size off n) ip' blocks' mem')))
  unfolding readi
  readi_lem ip blocks mem dst off n ty le max w o f =
      let within : off + readable ip.size off n ≤ max_file * block_size = ground arith in
      let (ip', (b', (mem', (e, r)))) =
        read_blocks_lem sb ip.inum (suc (readable ip.size off n)) ip blocks mem dst off
          (readable ip.size off n) (omega arith) within o f in
      (ip', (b', (mem', (ground (arith, e, ty, le, w), r))))
