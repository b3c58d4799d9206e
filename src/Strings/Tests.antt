-- ===== src/Strings/Tests.antt =====
-- The memory and string functions at work.
use ut_os.Base.{◌%◌, ◌≡◌, refl, arith}
use ut_os.Strings.{Memory, memset, memmove, memcpy, memcmp, strncmp, strncpy, safestrcpy, strlen}
use ut_os.Strings.Move.{copied, memcpy_lem}
use ut_os.Strings.Compare.{IsBytes}

-- Texts of 9 bytes and a NUL, all over the memory.
abbrev mem : Memory
mem x = x % 10

mem-IsBytes : IsBytes mem
mem-IsBytes a = omega arith

memmove_overlaps : memmove mem 103 101 4 105 ≡ 3
unfolding memmove ut_os.Strings.copy_down
memmove_overlaps = refl

memcpy_lem_example : memcpy mem 103 101 4 ≡ copied mem 103 101 4
memcpy_lem_example = memcpy_lem mem 103 101 4
