-- ===== src/Files/Io/Tests.antt =====
-- The transactions of filewrite at work, on the disk of the tests of the file system.
use ut_os.Base.{ℕ, ◌≡◌, refl, true, false, List, arith}
use ut_os.FileSystem.{Blocks}
use ut_os.FileSystem.Inode.{Inode}
use ut_os.FileSystem.Tests.{
  sb, disk, file, disk-Owns, letters, letters-IsBytes, enough, no_device, no_write,
}
use ut_os.Files.{File, no_file, fd_inode}
use ut_os.Files.Io.{returns, filewrite}
use ut_os.Files.Io.Chunks.{AreSmall, IsReady, Moved}
use ut_os.Files.Io.Filewrite.{filewrite_lem}

abbrev unlocked : Inode
unlocked = record file { lock = record { locked = false; pid = 0 } }

abbrev open_file : File
open_file = record no_file { type = fd_inode; ref = 1; writable = true }

unlocked-IsReady : IsReady unlocked
unlocked-IsReady = record {
  valid = refl;
  referenced = λ e. absurd (omega (arith, e));
  unlocked = refl;
  no_device = λ e. absurd (omega (arith, e));
}

filewrite_lem_example :
    (done : List ℕ) × ((f' : File) × ((ip' : Inode) × ((blocks' : Blocks) × ((filewrite sb 7
                no_device no_write open_file unlocked disk letters 5 4000
              ≡ returns 4000 (done, (f', (ip', blocks'))))
            × (AreSmall done
                × Moved sb 7 no_device no_write open_file unlocked disk letters 5 4000 f' ip'
                    blocks')))))
filewrite_lem_example =
    filewrite_lem sb 7 no_device no_write open_file unlocked disk letters 5 4000 refl refl
      unlocked-IsReady (omega arith) (omega arith) letters-IsBytes disk-Owns
      (enough 20 (omega arith))
