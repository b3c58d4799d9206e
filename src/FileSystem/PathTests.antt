-- ===== src/FileSystem/PathTests.antt =====
-- Paths and the inode cache at work.
use ut_os.Base.{
  ℕ, ◌≤◌, ◌<◌, ◌≡◌, ◌≢◌, ◌⊎◌, refl, inr, ◌==◌, if◌then◌else◌, false, none, some, arith,
}
use ut_os.Strings.{Memory}
use ut_os.FileSystem.Inode.{Inode, iget}
use ut_os.FileSystem.Names.{skipelem}
use ut_os.FileSystem.Elements.{AreSlashes, Taken, skipelem_lem}
use ut_os.FileSystem.Icache.{is_for, IsOnePerInode, Entered, iget_lem}
use ut_os.FileSystem.Tests.{file}

-- The path `/a` at 100.
abbrev path : Memory
path x = if x == 100 then 47 else (if x == 101 then 97 else 0)

skipelem_lem_example :
    ((skipelem 5 path 100 200 ≡ some (0, path))
      × ((s : ℕ) × (AreSlashes path 100 s × (path s ≡ 0))))
    ⊎ ((s : ℕ) × ((e : ℕ) × ((q : ℕ) × ((m' : Memory) × ((skipelem 5 path 100 200 ≡ some (q, m'))
                × ((q ≤ 102) × Taken path 100 200 s e q m'))))))
skipelem_lem_example =
    skipelem_lem 5 path 100 200 102 (omega arith) (omega arith) refl (inr (omega arith))

abbrev icache : ℕ → Inode
icache i = record file { inum = i; ref = if i == 3 then 1 else 0 }

icache-IsOnePerInode : IsOnePerInode icache
icache-IsOnePerInode i j li lj ri rj d e = e

iget_lem_example :
    ((i : ℕ) × ((c' : ℕ → Inode) × ((iget 1 3 icache ≡ some (i, c')) × Entered 1 3 icache i c')))
    ⊎ ((iget 1 3 icache ≡ none)
        × ((j : ℕ) → j < 50 → (is_for 1 3 (icache j) ≡ false) × ((icache j).ref ≢ 0)))
iget_lem_example = iget_lem 1 3 icache icache-IsOnePerInode
