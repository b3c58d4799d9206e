-- ===== src/FileSystem/Round.antt =====
-- One round of the loop of writei of fs.c.
use ut_os.Base.{
  ℕ, ◌+◌, ◌-◌, ◌*◌, ◌/◌, ◌%◌, ◌≤◌, ◌<◌, ◌≡◌, ◌≢◌, refl, inl, inr, sym, ap, subst, ◌∙◌, ◌==◌, ==→eq,
  if-cases, ltb, leb, Bool-cases, true, ◌&&◌, if◌then◌else◌, update, arith,
}
use ut_os.Strings.{Memory}
use ut_os.Strings.Compare.{IsBytes}
use ut_os.FileSystem.{Superblock, Blocks, block_size, max_file}
use ut_os.FileSystem.Inode.{Inode}
use ut_os.FileSystem.Content.{copy_between}
use ut_os.FileSystem.Owned.{entry, place, byte_at, Owns}
use ut_os.FileSystem.Kept.{count_free, Kept}
use ut_os.FileSystem.Stored.{copy_between_lem, stored-Owns, stored-count_free, stored-byte_at}

-- The blocks of the content that `n` bytes from `off` on lie in.
abbrev pub touched : ℕ → ℕ → ℕ
touched off n = if n == 0 then 0 else (off + n - 1) / block_size - off / block_size + 1

-- A file's bytes with `n` bytes of `mem` from `src` on written at `off`.
abbrev pub written : (ℕ → ℕ) → ℕ → Memory → ℕ → ℕ → ℕ → ℕ
written file off mem src n i =
    if leb off i && ltb i (off + n) then mem (src + (i - off)) else file i

module _ (sb : Superblock) (inum : ℕ) where
  -- What a write of `n` bytes leaves.
  pub record Written (blocks : Blocks) (ip : Inode) (mem : Memory) (src off n : ℕ)
      (blocks' : Blocks) (ip' : Inode) : Type 0 where
    pub owns : Owns sb inum blocks' ip'.addrs
    pub content :
        (i : ℕ)
        → i < max_file * block_size
        → byte_at blocks' ip'.addrs i ≡ written (byte_at blocks ip.addrs) off mem src n i
    pub free : count_free sb blocks ≤ count_free sb blocks' + 2 * touched off n
    pub inode : ip' ≡ record ip { addrs = ip'.addrs }

  -- The bytes of one round, and then those of the rest.
  pub written-rest :
      (file : ℕ → ℕ) (mem : Memory) (src off n m i : ℕ)
      → m ≤ n
      → written (written file off mem src m) (off + m) mem (src + m) (n - m) i
        ≡ written file off mem src n i
  written-rest file mem src off n m i l = ground (arith, ap mem (shift src off i m))
    where
      shift :
          (src off i m : ℕ)
          → (if ltb i (off + m) then src + (i - off) else src + m + (i - (off + m)))
            ≡ src + (i - off)
      shift src off i m = ground arith

  block-bytes :
      (file : ℕ → ℕ) (old mem : Memory) (src off m i : ℕ)
      → off % block_size + m ≤ block_size
      → ((i / block_size == off / block_size) ≡ true → file i ≡ old (i % block_size))
      → (if i / block_size == off / block_size
          then (if leb (off % block_size) (i % block_size)
                && ltb (i % block_size) (off % block_size + m)
              then mem (src + (i % block_size - off % block_size))
              else old (i % block_size))
          else file i)
        ≡ written file off mem src m i
  block-bytes file old mem src off m i fits h =
      elim (Bool-cases (i / block_size == off / block_size)) [
        | inl same ↦
            (let e : i % block_size - off % block_size ≡ i - off =
                ground (arith, ==→eq (i / block_size) (off / block_size) same) in
              ground (arith, same, h same, ap (λ d. mem (src + d)) e))
        | inr other ↦ ground (arith, other)
      ]

  -- The memmove of one round: `m` bytes at most to the end of the block of `off`.
  module _ (blocks : Blocks) (addrs : ℕ → ℕ) (o : Owns sb inum blocks addrs) (mem : Memory)
      (bytes : IsBytes mem) (src off m : ℕ) (pos : 0 < m) (fits : off % block_size + m ≤ block_size)
      (le : off + m ≤ max_file * block_size)
      (nz : entry blocks addrs (place (off / block_size)) ≢ 0) where
    abbrev block : ℕ
    block = entry blocks addrs (place (off / block_size))

    abbrev moved : Memory
    moved = copy_between (blocks block) (off % block_size) mem src m

    moved-IsBytes : IsBytes moved
    moved-IsBytes x =
        subst (λ y. y < 256) (sym (copy_between_lem (blocks block) (off % block_size) mem src m x))
          (if-cases (λ y. y < 256) (leb (off % block_size) x && ltb x (off % block_size + m))
            (mem (src + (x - off % block_size))) (blocks block x)
            (λ _. bytes (src + (x - off % block_size))) (λ _. o.bytes block x))

    moved-byte_at :
        (i : ℕ)
        → i < max_file * block_size
        → byte_at (update blocks block moved) addrs i
          ≡ written (byte_at blocks addrs) off mem src m i
    moved-byte_at i li =
        stored-byte_at sb inum blocks addrs o (off / block_size) (omega arith) nz moved
          moved-IsBytes i li
        ∙ (subst
            (λ y.
              (if i / block_size == off / block_size then y else byte_at blocks addrs i)
              ≡ written (byte_at blocks addrs) off mem src m i)
            (sym (copy_between_lem (blocks block) (off % block_size) mem src m (i % block_size)))
            (block-bytes (byte_at blocks addrs) (blocks block) mem src off m i fits (λ h.
              old (entry blocks addrs (place (i / block_size))) (
                ap (λ b. entry blocks addrs (place b))
                  (==→eq (i / block_size) (off / block_size) h)))))
      where
        old :
            (a : ℕ)
            → a ≡ block
            → (if a == 0 then 0 else blocks a (i % block_size)) ≡ blocks block (i % block_size)
        old a e =
            subst
              (λ a.
                (if a == 0 then 0 else blocks a (i % block_size)) ≡ blocks block (i % block_size))
              (sym e) (ground (arith, nz))

    pub moved-Written :
        (ip : Inode) (start : Blocks)
        → Kept sb inum 2 start ip.addrs blocks addrs
        → (ip' : Inode) → ip' ≡ record ip { addrs = addrs }
        → Written start ip mem src off m (update blocks block moved) ip'
    moved-Written ip start k ip' e =
        subst (λ x. Written start ip mem src off m (update blocks block moved) x) (sym e)
          (record {
            owns =
                stored-Owns sb inum blocks addrs o (off / block_size) (omega arith) nz moved
                  moved-IsBytes;
            content = λ i li.
                moved-byte_at i li
                ∙ ap (λ x. if leb off i && ltb i (off + m) then mem (src + (i - off)) else x)
                    (k.content i li);
            free = omega (
              arith,
              k.free,
              stored-count_free sb inum blocks addrs o (off / block_size) (omega arith) nz moved
                  moved-IsBytes,
              one_block,
            );
            inode = refl;
          })
      where
        one_block : touched off m ≡ 1
        one_block = ground arith
