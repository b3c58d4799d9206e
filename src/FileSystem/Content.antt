-- ===== src/FileSystem/Content.antt =====
-- fs.c: the content of an inode. A file's bytes move between the blocks and the memory `mem`; none is
-- a panic.
use ut_os.Base.{
  ℕ, zero, suc, ◌+◌, ◌-◌, ◌*◌, ◌/◌, ◌%◌, ◌==◌, ltb, leb, Bool, true, false, ◌&&◌, ◌||◌, not,
  if◌then◌else◌, Option, none, some, update, wrap, minus_one,
}
use ut_os.Strings.{Memory, store, store_word}
use ut_os.Kalloc.{load_word}
use ut_os.Reentrant.{acquiresleep, releasesleep}
use ut_os.FileSystem.{Superblock, Blocks, block_size, n_direct, n_indirect, max_file, balloc, bfree}
use ut_os.FileSystem.Inode.{Inode, iupdate, iunlock}

-- T_DEV of stat.h.
abbrev pub t_dev : ℕ
t_dev = 3

abbrev pub n_dev : ℕ
n_dev = 10

-- `n` bytes from `src + s` on to `dst + d` on, of another memory.
unfoldable pub copy_between : Memory → ℕ → Memory → ℕ → ℕ → Memory
copy_between dst d src s zero = dst
copy_between dst d src s (suc n) = copy_between (store dst d (src s)) (d + 1) src (s + 1) n

abbrev pub min : ℕ → ℕ → ℕ
min a b = if ltb a b then a else b

module _ (sb : Superblock) where
  -- The block of entry `p` of the direct ones, and of the indirect block: allocated when it is 0.
  unfoldable pub direct_entry : Inode → ℕ → Blocks → Option (ℕ × (Inode × Blocks))
  unfolding balloc
  direct_entry ip p blocks = elim (ip.addrs p == 0) [
    | false ↦ some (ip.addrs p, (ip, blocks))
    | true ↦ elim (balloc sb blocks) [
      | none ↦ none
      | some r ↦ some (r.0, (record ip { addrs = update ip.addrs p r.0 }, r.1))
    ]
  ]

  unfoldable pub indirect_entry : ℕ → ℕ → Blocks → Option (ℕ × Blocks)
  unfolding balloc
  indirect_entry a p blocks = elim (load_word (blocks a) (4 * p) == 0) [
    | false ↦ some (load_word (blocks a) (4 * p), blocks)
    | true ↦ elim (balloc sb blocks) [
      | none ↦ none
      | some r ↦ some (r.0, update r.1 a (store_word (r.1 a) (4 * p) r.0))
    ]
  ]

  unfoldable pub bmap : Inode → ℕ → Blocks → Option (ℕ × (Inode × Blocks))
  unfolding direct_entry indirect_entry
  bmap ip bn blocks = elim (ltb bn n_direct) [
    | true ↦ direct_entry ip bn blocks
    | false ↦ elim (ltb (bn - n_direct) n_indirect) [
      | false ↦ none
      | true ↦ elim (direct_entry ip n_direct blocks) [
        | none ↦ none
        | some r ↦ elim (indirect_entry r.0 (bn - n_direct) r.1.1) [
          | none ↦ none
          | some s ↦ some (s.0, (r.1.0, s.1))
        ]
      ]
    ]
  ]

  -- The first loop of `itrunc`, `n` entries from `i` on.
  pub free_direct : ℕ → ℕ → Inode → Blocks → Option (Inode × Blocks)
  unfolding bfree
  free_direct zero i ip blocks = some (ip, blocks)
  free_direct (suc n) i ip blocks = elim (ip.addrs i == 0) [
    | true ↦ free_direct n (i + 1) ip blocks
    | false ↦ elim (bfree sb (ip.addrs i) blocks) [
      | none ↦ none
      | some blocks' ↦ free_direct n (i + 1) (record ip { addrs = update ip.addrs i 0 }) blocks'
    ]
  ]

  -- The second loop of `itrunc`: the entries of the indirect block `a` are read from it as it is then.
  pub free_indirect : ℕ → ℕ → ℕ → Blocks → Option Blocks
  unfolding bfree
  free_indirect zero j a blocks = some blocks
  free_indirect (suc n) j a blocks = elim (load_word (blocks a) (4 * j) == 0) [
    | true ↦ free_indirect n (j + 1) a blocks
    | false ↦ elim (bfree sb (load_word (blocks a) (4 * j)) blocks) [
      | none ↦ none
      | some blocks' ↦ free_indirect n (j + 1) a blocks'
    ]
  ]

  -- The part of `itrunc` for the indirect block.
  pub free_last : Inode → Blocks → Option (Inode × Blocks)
  unfolding free_indirect
  free_last ip blocks = elim (ip.addrs n_direct == 0) [
    | true ↦ some (ip, blocks)
    | false ↦ elim (free_indirect n_indirect 0 (ip.addrs n_direct) blocks) [
      | none ↦ none
      | some freed ↦ elim (bfree sb (ip.addrs n_direct) freed) [
        | none ↦ none
        | some freed' ↦ some (record ip { addrs = update ip.addrs n_direct 0 }, freed')
      ]
    ]
  ]

  unfoldable pub itrunc : Inode → Blocks → Option (Inode × Blocks)
  unfolding free_direct free_last
  itrunc ip blocks = elim (free_direct n_direct 0 ip blocks) [
    | none ↦ none
    | some r ↦ elim (free_last r.0 r.1) [
      | none ↦ none
      | some s ↦ (let ip' = record s.0 { size = 0 } in some (ip', iupdate sb ip' s.1))
    ]
  ]

  -- What `iput` does to the inode between the lock and its release.
  pub drop_unlinked : Inode → Blocks → Option (Inode × Blocks)
  unfolding itrunc
  drop_unlinked ip blocks = elim (ip.valid && ip.nlink == 0 && ip.ref == 1) [
    | false ↦ some (ip, blocks)
    | true ↦ elim (itrunc ip blocks) [
      | none ↦ none
      | some r ↦
          (let ip' = record r.0 { type = 0 } in
            some (record ip' { valid = false }, iupdate sb ip' r.1))
    ]
  ]

  unfoldable pub iput : ℕ → Inode → Blocks → Option (Inode × Blocks)
  unfolding drop_unlinked
  iput me ip blocks = elim (acquiresleep me ip.lock) [
    | none ↦ none
    | some held ↦ elim (drop_unlinked (record ip { lock = held }) blocks) [
      | none ↦ none
      | some r ↦ some (record r.0 { lock = releasesleep held; ref = r.0.ref - 1 }, r.1)
    ]
  ]

  unfoldable pub iunlockput : ℕ → Inode → Blocks → Option (Inode × Blocks)
  unfolding iput iunlock
  iunlockput me ip blocks = elim (iunlock me ip) [ none ↦ none | some ip' ↦ iput me ip' blocks ]

  -- The loop of `readi`, with fuel: `n` bytes left, from `off` on, to `dst`.
  unfoldable pub read_blocks :
      ℕ → Inode → Blocks → Memory → ℕ → ℕ → ℕ → Option (Inode × (Blocks × Memory))
  unfolding bmap copy_between
  read_blocks zero ip blocks mem dst off n = none
  read_blocks (suc fuel) ip blocks mem dst off n = elim (ltb 0 n) [
    | false ↦ some (ip, (blocks, mem))
    | true ↦ elim (bmap ip (off / block_size) blocks) [
      | none ↦ none
      | some r ↦
          (let m = min n (block_size - off % block_size) in
            read_blocks fuel r.1.0 r.1.1 (copy_between mem dst (r.1.1 r.0) (off % block_size) m)
              (dst + m) (off + m) (n - m))
    ]
  ]

  -- The loop of `writei`, with fuel.
  unfoldable pub write_blocks : ℕ → Inode → Blocks → Memory → ℕ → ℕ → ℕ → Option (Inode × Blocks)
  unfolding bmap copy_between
  write_blocks zero ip blocks mem src off n = none
  write_blocks (suc fuel) ip blocks mem src off n = elim (ltb 0 n) [
    | false ↦ some (ip, blocks)
    | true ↦ elim (bmap ip (off / block_size) blocks) [
      | none ↦ none
      | some r ↦
          (let m = min n (block_size - off % block_size) in
            let a = r.0 in
            write_blocks fuel r.1.0
              (update r.1.1 a (copy_between (r.1.1 a) (off % block_size) mem src m)) mem (src + m)
              (off + m) (n - m))
    ]
  ]

  -- `major < 0 || major >= NDEV || !devsw[major].f`, where `has` tells the functions that are set.
  abbrev pub is_no_device : (ℕ → Bool) → Inode → Bool
  is_no_device has ip = ltb 32767 ip.major || leb n_dev ip.major || not (has ip.major)

  -- `read` is the function of the device, with the inode, `dst`, `n` and the memory.
  module _ (has : ℕ → Bool) (dev_read : ℕ → Inode → ℕ → ℕ → Memory → ℕ × Memory) where
    unfoldable pub readi :
        Inode → Blocks → Memory → ℕ → ℕ → ℕ → Option (ℕ × (Inode × (Blocks × Memory)))
    unfolding read_blocks
    readi ip blocks mem dst off n = elim (ip.type == t_dev) [
      | true ↦
          (let r = dev_read ip.major ip dst n mem in
            if is_no_device has ip
            then some (minus_one, (ip, (blocks, mem)))
            else some (r.0, (ip, (blocks, r.1))))
      | false ↦ elim (ltb ip.size off || ltb (wrap (off + n)) off) [
        | true ↦ some (minus_one, (ip, (blocks, mem)))
        | false ↦
            (let n' = if ltb ip.size (off + n) then ip.size - off else n in
              elim (read_blocks (suc n') ip blocks mem dst off n') [
                | none ↦ none
                | some r ↦ some (n', r)
              ])
      ]
    ]

  -- `dev_write` is the function of the device, with the inode, `src`, `n` and the memory.
  module _ (has : ℕ → Bool) (dev_write : ℕ → Inode → ℕ → ℕ → Memory → ℕ) where
    unfoldable pub writei : Inode → Blocks → Memory → ℕ → ℕ → ℕ → Option (ℕ × (Inode × Blocks))
    unfolding write_blocks
    writei ip blocks mem src off n = elim (ip.type == t_dev) [
      | true ↦
          (if is_no_device has ip
            then some (minus_one, (ip, blocks))
            else some (dev_write ip.major ip src n mem, (ip, blocks)))
      | false ↦ elim (ltb ip.size off || ltb (wrap (off + n)) off) [
        | true ↦ some (minus_one, (ip, blocks))
        | false ↦ elim (ltb (max_file * block_size) (off + n)) [
          | true ↦ some (minus_one, (ip, blocks))
          | false ↦ elim (write_blocks (suc n) ip blocks mem src off n) [
            | none ↦ none
            | some r ↦
                (let ip' = record r.0 { size = off + n } in
                  if ltb 0 n && ltb r.0.size (off + n)
                  then some (n, (ip', iupdate sb ip' r.1))
                  else some (n, r))
          ]
        ]
      ]
    ]
