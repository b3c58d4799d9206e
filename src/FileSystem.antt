-- ===== src/FileSystem.antt =====
-- fs.c: blocks, inodes and their content. A block is the byte memory of its buffer, from bread to
-- log_write and brelse, and there is one device. What log_write promises is about Log, and that a
-- block has one buffer about BufferCache.
pub mod Bits
pub mod Bitmap
pub mod Alloc
pub mod Inode
pub mod Content
pub mod Owned
pub mod Map
pub mod Kept
pub mod Mapped
pub mod Stored
pub mod Round
pub mod Write
pub mod Metadata
pub mod Dinode
pub mod Writei
pub mod Readi
pub mod Roundtrip
pub mod Icache
pub mod Names
pub mod Elements
pub mod Directory
pub mod Tests
pub mod PathTests
use ut_os.Base.{
  ℕ, zero, suc, ◌+◌, ◌-◌, ◌*◌, ◌/◌, ◌%◌, ◌^◌, ◌==◌, ltb, leb, Bool, true, false, ◌&&◌, ◌||◌, not,
  if◌then◌else◌, Option, none, some, List, [], ◌∷◌, ◌++◌, update, wrap,
}
use ut_os.Strings.{Memory, memset, store_word}
use ut_os.Strings.Compare.{bytes}
use ut_os.Kalloc.{load_word}

abbrev pub block_size : ℕ
block_size = 512

abbrev pub n_direct : ℕ
n_direct = 12

abbrev pub n_indirect : ℕ
n_indirect = 128

abbrev pub max_file : ℕ
max_file = n_direct + n_indirect

-- BPB: bitmap bits per block.
abbrev pub bits_per_block : ℕ
bits_per_block = block_size * 8

pub record Superblock : Type 0 where
  pub size : ℕ
  pub nblocks : ℕ
  pub ninodes : ℕ
  pub nlog : ℕ
  pub logstart : ℕ
  pub inodestart : ℕ
  pub bmapstart : ℕ

abbrev pub Blocks : Type 0
Blocks = ℕ → Memory

-- BBLOCK of fs.h.
abbrev pub map_block : Superblock → ℕ → ℕ
map_block sb b = b / bits_per_block + sb.bmapstart

-- `(byte & (1 << k)) == 0`, `byte | 1 << k` and `byte & ~(1 << k)`.
abbrev pub is_clear : ℕ → ℕ → Bool
is_clear byte k = byte / 2 ^ k % 2 == 0

abbrev pub set_bit : ℕ → ℕ → ℕ
set_bit byte k = if is_clear byte k then byte + 2 ^ k else byte

abbrev pub clear_bit : ℕ → ℕ → ℕ
clear_bit byte k = if is_clear byte k then byte else byte - 2 ^ k

pub bzero : ℕ → Blocks → Blocks
bzero b blocks = update blocks b (memset (blocks b) 0 0 block_size)

-- `bp->data[bi/8] |= m;`
abbrev pub mark_used : ℕ → Memory → Memory
mark_used bi map = update map (bi / 8) (set_bit (map (bi / 8)) (bi % 8))

module _ (sb : Superblock) where
  -- The inner loop of `balloc` for `n` bits from `bi` on: the first clear one, if any.
  pub find_clear : Memory → ℕ → ℕ → ℕ → Option ℕ
  find_clear map b zero bi = none
  find_clear map b (suc n) bi =
      let rest = find_clear map b n (bi + 1) in
      if not (ltb (b + bi) sb.size)
      then none
      else (if is_clear (map (bi / 8)) (bi % 8) then some bi else rest)

  -- The outer loop from block `b` on, with fuel; none is the panic.
  pub balloc_from : ℕ → ℕ → Blocks → Option (ℕ × Blocks)
  balloc_from zero b blocks = none
  balloc_from (suc fuel) b blocks = elim (ltb b sb.size) [
    | false ↦ none
    | true ↦
        (let at = map_block sb b in
          elim (find_clear (blocks at) b bits_per_block 0) [
            | none ↦ balloc_from fuel (b + bits_per_block) blocks
            | some bi ↦ some (b + bi, bzero (b + bi) (update blocks at (mark_used bi (blocks at))))
          ])
  ]

  -- One round more than the file system has blocks is enough.
  pub balloc : Blocks → Option (ℕ × Blocks)
  unfolding balloc_from bzero
  balloc blocks = balloc_from (suc sb.size) 0 blocks

  pub bfree : ℕ → Blocks → Option Blocks
  bfree b blocks =
      let at = map_block sb b in
      let bi = b % bits_per_block in
      let map = blocks at in
      if is_clear (map (bi / 8)) (bi % 8)
      then none
      else some (update blocks at (update map (bi / 8) (clear_bit (map (bi / 8)) (bi % 8))))
