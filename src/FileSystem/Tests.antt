-- ===== src/FileSystem/Tests.antt =====
-- The file system at work: a disk of 64 blocks with its inodes in block 2, the bitmap in block 3, and
-- the first eight blocks in use.
use ut_os.Base.{
  ℕ, ◌+◌, ◌/◌, ◌%◌, ◌≤◌, ◌<◌, ◌≡◌, ◌⊎◌, refl, ap, ◌==◌, ◌&&◌, Bool, true, false, if◌then◌else◌,
  none, some, arith,
}
use ut_os.Strings.{Memory}
use ut_os.Strings.Compare.{IsBytes}
use ut_os.FileSystem.{Superblock, Blocks, balloc, find_clear, bfree}
use ut_os.FileSystem.Bitmap.{AreBytes, is_free, taken}
use ut_os.FileSystem.Alloc.{IsMapUsed, Allocated, balloc_lem, bfree-balloc}
use ut_os.FileSystem.Inode.{Inode, iupdate, ilock}
use ut_os.FileSystem.Content.{bmap}
use ut_os.FileSystem.Owned.{Owns, entry}
use ut_os.FileSystem.Kept.{count_free}
use ut_os.FileSystem.Mapped.{Mapped, bmap_lem}
use ut_os.FileSystem.Dinode.{Fits, HasFields, ilock-iupdate}

abbrev pub sb : Superblock
sb = record {
  size = 64;
  nblocks = 56;
  ninodes = 8;
  nlog = 0;
  logstart = 2;
  inodestart = 2;
  bmapstart = 3;
}

abbrev pub disk : Blocks
disk b x = if b == 3 && x == 0 then 255 else 0

disk-AreBytes : AreBytes disk
disk-AreBytes b x = ground arith

disk-IsMapUsed : IsMapUsed sb disk
disk-IsMapUsed i l = (omega arith, ap (λ b. is_free sb disk b) (bitmap i l))
  where
    bitmap : (i : ℕ) → i < 64 → i / 4096 + 3 ≡ 3
    bitmap i l = omega arith

-- An empty file.
abbrev pub file : Inode
file = record {
  dev = 1;
  inum = 1;
  ref = 1;
  lock = record { locked = true; pid = 7 };
  valid = true;
  type = 2;
  major = 0;
  minor = 0;
  nlink = 1;
  size = 0;
  addrs = λ i. 0;
}

no_entry : (p : ℕ) → entry disk file.addrs p ≡ 0
no_entry p = ground arith

pub disk-Owns : Owns sb 1 disk file.addrs
disk-Owns = record {
  bytes = disk-AreBytes;
  map_used = disk-IsMapUsed;
  boot_used = refl;
  inode_used = refl;
  inode_no_map = λ i l e. absurd (omega (arith, e));
  inode_below = omega arith;
  small = omega arith;
  own = λ p l nz. absurd (nz (no_entry p));
  distinct = λ p q lp lq ne nz. absurd (nz (no_entry p));
}

-- The bytes 65, 66, and so on.
abbrev pub letters : Memory
letters x = (65 + x) % 256

pub letters-IsBytes : IsBytes letters
letters-IsBytes x = omega arith

disk-count_free : count_free sb disk ≡ 56
disk-count_free = refl

pub enough : (n : ℕ) → n ≤ 56 → n ≤ count_free sb disk
enough n l = omega (arith, l, disk-count_free)

balloc_lem_example :
    ((balloc sb disk ≡ none) × ((j : ℕ) → j < 64 → is_free sb disk j ≡ false))
    ⊎ ((k : ℕ) × ((blocks' : Blocks) × ((balloc sb disk ≡ some (k, blocks'))
            × Allocated sb disk k blocks')))
balloc_lem_example = balloc_lem sb disk disk-AreBytes disk-IsMapUsed

bmap_lem_example :
    (a : ℕ) × ((ip' : Inode) × ((blocks' : Blocks) × ((bmap sb file 20 disk
            ≡ some (a, (ip', blocks')))
          × Mapped sb 1 file 20 disk a ip' blocks')))
bmap_lem_example = bmap_lem sb 1 file 20 disk (omega arith) disk-Owns (enough 2 (omega arith))

abbrev pub no_device : ℕ → Bool
no_device i = false

abbrev pub no_write : ℕ → Inode → ℕ → ℕ → Memory → ℕ
no_write major ip src n mem = 0

abbrev no_read : ℕ → Inode → ℕ → ℕ → Memory → ℕ × Memory
no_read major ip dst n mem = (0, mem)

-- The cache entry that iget makes for the file.
abbrev entry_of_file : Inode
entry_of_file = record file {
  valid = false;
  type = 0;
  nlink = 0;
  lock = record { locked = false; pid = 0 };
}

file-Fits : Fits file
file-Fits = record {
  type = omega arith;
  major = omega arith;
  minor = omega arith;
  nlink = omega arith;
  size = omega arith;
  addrs = λ i. omega arith;
}

ilock-iupdate_example :
    (r : Inode) × ((ilock sb 7 entry_of_file (iupdate sb file disk) ≡ some r)
      × (HasFields r file × ((r.valid ≡ true) × (◌≡◌ {A = ℕ} r.inum 1 × ◌≡◌ {A = ℕ} r.ref 1))))
ilock-iupdate_example =
    ilock-iupdate sb 7 file entry_of_file disk file-Fits (λ e. absurd (omega (arith, e))) refl refl
      (λ e. absurd (omega (arith, e))) refl

first_block : balloc sb disk ≡ some (8, taken sb disk 8)
unfolding balloc find_clear
first_block = refl

bfree-balloc_example :
    (blocks'' : Blocks) × ((bfree sb 8 (taken sb disk 8) ≡ some blocks'')
      × ((i : ℕ) → i < 64 → is_free sb blocks'' i ≡ is_free sb disk i))
bfree-balloc_example =
    bfree-balloc sb disk (taken sb disk 8) 8 disk-AreBytes disk-IsMapUsed first_block
