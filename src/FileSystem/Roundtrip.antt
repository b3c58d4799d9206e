-- ===== src/FileSystem/Roundtrip.antt =====
-- readi after writei of fs.c.
use ut_os.FileSystem.Inode.{Inode}
