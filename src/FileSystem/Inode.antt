-- ===== src/FileSystem/Inode.antt =====
-- fs.c: the inodes, on the disk and in the cache of them. `me` is the pid of the calling process; none
-- is a panic, or for a lock that is held the sleep in acquiresleep.
use ut_os.Base.{
  ℕ, zero, suc, ◌+◌, ◌-◌, ◌*◌, ◌/◌, ◌%◌, ◌==◌, ltb, leb, Bool, true, false, ◌&&◌, ◌||◌, not,
  if◌then◌else◌, Option, none, some, update,
}
use ut_os.Strings.{Memory, store, memset, store_word}
use ut_os.Kalloc.{load_word}
use ut_os.Reentrant.{Sleeplock, initsleeplock, acquiresleep, releasesleep, holdingsleep}
use ut_os.FileSystem.{Superblock, Blocks, n_direct}

-- NINODE of param.h.
abbrev pub n_inode : ℕ
n_inode = 50

-- IPB: inodes per block, and the bytes of one.
abbrev pub inodes_per_block : ℕ
inodes_per_block = 8

abbrev pub inode_size : ℕ
inode_size = 64

-- `addrs` counts from 0 to n_direct; the shorts are 16-bit patterns.
pub record Inode : Type 0 where
  pub dev : ℕ
  pub inum : ℕ
  pub ref : ℕ
  pub lock : Sleeplock
  pub valid : Bool
  pub type : ℕ
  pub major : ℕ
  pub minor : ℕ
  pub nlink : ℕ
  pub size : ℕ
  pub addrs : ℕ → ℕ

-- `struct stat`.
pub record Stat : Type 0 where
  pub type : ℕ
  pub dev : ℕ
  pub ino : ℕ
  pub nlink : ℕ
  pub size : ℕ

pub stati : Inode → Stat
stati ip = record { type = ip.type; dev = ip.dev; ino = ip.inum; nlink = ip.nlink; size = ip.size }

abbrev pub load_half : Memory → ℕ → ℕ
load_half m a = m a + m (a + 1) * 256

abbrev pub store_half : Memory → ℕ → ℕ → Memory
store_half m a w = store (store m a (w % 256)) (a + 1) (w / 256 % 256)

-- `(struct dinode*)bp->data + inum % IPB`, as an offset in the block.
abbrev pub dinode_at : ℕ → ℕ
dinode_at inum = inum % inodes_per_block * inode_size

-- IBLOCK of fs.h.
abbrev pub inode_block : Superblock → ℕ → ℕ
inode_block sb inum = inum / inodes_per_block + sb.inodestart

-- The memmove of `addrs` to the block, word by word: the words from `i` on.
unfoldable pub store_addrs : Memory → ℕ → (ℕ → ℕ) → ℕ → ℕ → Memory
store_addrs m a addrs i zero = m
store_addrs m a addrs i (suc n) = store_addrs (store_word m (a + 4 * i) (addrs i)) a addrs (i + 1) n

-- The superblock is in block 1.
pub readsb : Blocks → Superblock
readsb blocks =
    let m = blocks 1 in
    record {
      size = load_word m 0;
      nblocks = load_word m 4;
      ninodes = load_word m 8;
      nlog = load_word m 12;
      logstart = load_word m 16;
      inodestart = load_word m 20;
      bmapstart = load_word m 24;
    }

-- The locks that `iinit` sets up, and the superblock that it reads.
pub iinit : Blocks → (ℕ → Inode) → (ℕ → Inode) × Superblock
unfolding initsleeplock readsb
iinit blocks icache = (
  λ i. if ltb i n_inode then record (icache i) { lock = initsleeplock } else icache i,
  readsb blocks,
)

-- The body of `iupdate`, on the block.
abbrev pub write_dinode : Inode → Memory → Memory
write_dinode ip m =
    let a = dinode_at ip.inum in
    let m1 = store_half m a ip.type in
    let m2 = store_half m1 (a + 2) ip.major in
    let m3 = store_half m2 (a + 4) ip.minor in
    let m4 = store_half m3 (a + 6) ip.nlink in
    store_addrs (store_word m4 (a + 8) ip.size) (a + 12) ip.addrs 0 (n_direct + 1)

-- The copy from the disk in `ilock`.
abbrev pub read_dinode : Inode → Memory → Inode
read_dinode ip m =
    let a = dinode_at ip.inum in
    record ip {
      type = load_half m a;
      major = load_half m (a + 2);
      minor = load_half m (a + 4);
      nlink = load_half m (a + 6);
      size = load_word m (a + 8);
      addrs = λ i. load_word m (a + 12 + 4 * i);
      valid = true;
    }

unfoldable pub iunlock : ℕ → Inode → Option Inode
iunlock me ip =
    if not (holdingsleep me ip.lock) || leb ip.ref 0
    then none
    else some (record ip { lock = releasesleep ip.lock })

-- The scan of `iget` from entry `i` on, `n` entries left, with the empty entry remembered.
unfoldable pub find_inode : (ℕ → Inode) → ℕ → ℕ → ℕ → ℕ → Option ℕ → Option (ℕ × (ℕ → Inode))
find_inode icache dev inum i zero none = none
find_inode icache dev inum i zero (some e) =
    some (e, update icache e (record (icache e) { dev = dev; inum = inum; ref = 1; valid = false }))
find_inode icache dev inum i (suc n) none =
    let ip = icache i in
    let hit = some (i, update icache i (record ip { ref = ip.ref + 1 })) in
    let rest = find_inode icache dev inum (i + 1) n none in
    let here = find_inode icache dev inum (i + 1) n (some i) in
    if not (leb ip.ref 0) && ip.dev == dev && ip.inum == inum
    then hit
    else (if ip.ref == 0 then here else rest)
find_inode icache dev inum i (suc n) (some e) =
    let ip = icache i in
    let hit = some (i, update icache i (record ip { ref = ip.ref + 1 })) in
    let rest = find_inode icache dev inum (i + 1) n (some e) in
    if not (leb ip.ref 0) && ip.dev == dev && ip.inum == inum then hit else rest

-- The result is the index of the entry.
unfoldable pub iget : ℕ → ℕ → (ℕ → Inode) → Option (ℕ × (ℕ → Inode))
iget dev inum icache = find_inode icache dev inum 0 n_inode none

unfoldable pub idup : ℕ → (ℕ → Inode) → ℕ × (ℕ → Inode)
idup i icache = (i, update icache i (record (icache i) { ref = (icache i).ref + 1 }))

module _ (sb : Superblock) where
  unfoldable pub iupdate : Inode → Blocks → Blocks
  unfolding store_addrs
  iupdate ip blocks =
      let at = inode_block sb ip.inum in update blocks at (write_dinode ip (blocks at))

  unfoldable pub ilock : ℕ → Inode → Blocks → Option Inode
  ilock me ip blocks = if leb ip.ref 0 then none else (elim (acquiresleep me ip.lock) [
    | none ↦ none
    | some held ↦
        (let ip' = read_dinode (record ip { lock = held }) (blocks (inode_block sb ip.inum)) in
          if ip.valid
          then some (record ip { lock = held })
          else (if ip'.type == 0 then none else some ip'))
  ])

  -- The loop of `ialloc` from `inum` on, `n` inodes left.
  pub ialloc_from : ℕ → ℕ → ℕ → ℕ → Blocks → (ℕ → Inode) → Option (Blocks × (ℕ × (ℕ → Inode)))
  unfolding iget
  ialloc_from dev type inum zero blocks icache = none
  ialloc_from dev type inum (suc n) blocks icache =
      let at = inode_block sb inum in
      let a = dinode_at inum in
      let m = blocks at in
      let blocks' = update blocks at (store_half (memset m a 0 inode_size) a type) in
      let rest = ialloc_from dev type (inum + 1) n blocks icache in
      if load_half m a == 0
      then (elim (iget dev inum icache) [ none ↦ none | some r ↦ some (blocks', r) ])
      else rest

  -- The inodes are counted from 1.
  pub ialloc : ℕ → ℕ → Blocks → (ℕ → Inode) → Option (Blocks × (ℕ × (ℕ → Inode)))
  unfolding ialloc_from
  ialloc dev type blocks icache = ialloc_from dev type 1 (sb.ninodes - 1) blocks icache
