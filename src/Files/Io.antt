-- ===== src/Files/Io.antt =====
-- fileread, filewrite and filestat of file.c, for a file with its inode. A call on a pipe is left to
-- pipe.c. A transaction of filewrite, from begin_op to end_op, is noted with its number of bytes.
pub mod Chunks
pub mod Filewrite
pub mod Tests
use ut_os.Base.{
  ℕ, zero, suc, ◌+◌, ◌-◌, ◌*◌, ◌/◌, ◌==◌, Bool, true, false, not, if◌then◌else◌, Option, none, some,
  List, [], ◌∷◌, wrap, sub_word, minus_one, lt_int,
}
use ut_os.Log.{max_op_blocks}
use ut_os.Strings.{Memory}
use ut_os.FileSystem.{Superblock, Blocks}
use ut_os.FileSystem.Inode.{Inode, Stat, stati, ilock, iunlock}
use ut_os.FileSystem.Content.{readi, writei}
use ut_os.Files.{FileType, fd_none, fd_pipe, fd_inode, File}

-- How a call ends: with a number and a state, in the function of the pipe with the arguments, or not
-- at all: in a panic, or asleep on the lock of the inode.
pub data IoEnd (S : Type 0) : Type 0 where
  returns : ℕ → S → IoEnd S
  on_pipe : (pipe addr n : ℕ) → IoEnd S
  stuck : IoEnd S

-- `max` of filewrite: the bytes of a transaction.
abbrev pub max_write : ℕ
max_write = (max_op_blocks - 1 - 1 - 2) / 2 * 512

module _ (sb : Superblock) (me : ℕ) where
  -- The structure at `st` is the result.
  pub filestat : File → Inode → Blocks → IoEnd (Option Stat × Inode)
  unfolding ilock iunlock
  filestat f ip blocks = elim f.type [
    | fd_none ↦ returns minus_one (none, ip)
    | fd_pipe ↦ returns minus_one (none, ip)
    | fd_inode ↦ elim (ilock sb me ip blocks) [
      | none ↦ stuck
      | some held ↦ elim (iunlock me held) [
        | none ↦ stuck
        | some free ↦ returns 0 (some (stati held), free)
      ]
    ]
  ]

  module _ (has : ℕ → Bool) (dev_read : ℕ → Inode → ℕ → ℕ → Memory → ℕ × Memory) where
    -- The part of `fileread` for an inode.
    abbrev read_inode :
        File → Inode → Blocks → Memory → ℕ → ℕ → IoEnd (File × (Inode × (Blocks × Memory)))
    read_inode f ip blocks mem addr n = elim (ilock sb me ip blocks) [
      | none ↦ stuck
      | some held ↦ elim (readi sb has dev_read held blocks mem addr f.off n) [
        | none ↦ stuck
        | some r ↦ elim (iunlock me r.1.0) [
          | none ↦ stuck
          | some free ↦
              returns r.0
                (if lt_int 0 r.0 then record f { off = wrap (f.off + r.0) } else f, (free, r.1.1))
        ]
      ]
    ]

    abbrev pub fileread :
        File → Inode → Blocks → Memory → ℕ → ℕ → IoEnd (File × (Inode × (Blocks × Memory)))
    fileread f ip blocks mem addr n = elim f.readable [
      | false ↦ returns minus_one (f, (ip, (blocks, mem)))
      | true ↦ elim f.type [
        | fd_none ↦ stuck
        | fd_pipe ↦ on_pipe f.pipe addr n
        | fd_inode ↦ read_inode f ip blocks mem addr n
      ]
    ]

  module _ (has : ℕ → Bool) (dev_write : ℕ → Inode → ℕ → ℕ → Memory → ℕ) where
    -- The body of one transaction: the number that writei returns, and the state.
    pub transaction :
        File → Inode → Blocks → Memory → ℕ → ℕ → Option (ℕ × (File × (Inode × Blocks)))
    unfolding ilock iunlock writei
    transaction f ip blocks mem addr n1 = elim (ilock sb me ip blocks) [
      | none ↦ none
      | some held ↦ elim (writei sb has dev_write held blocks mem addr f.off n1) [
        | none ↦ none
        | some r ↦ elim (iunlock me r.1.0) [
          | none ↦ none
          | some free ↦ some (
            r.0,
            (if lt_int 0 r.0 then record f { off = wrap (f.off + r.0) } else f, (free, r.1.1)),
          )
        ]
      ]
    ]

    -- The loop of `filewrite`, with fuel: the result has `i` and the transactions, the last one first.
    pub write_chunks :
        ℕ
        → File
        → Inode
        → Blocks
        → Memory
        → ℕ
        → ℕ
        → ℕ
        → List ℕ
        → Option (ℕ × (List ℕ × (File × (Inode × Blocks))))
    unfolding transaction
    write_chunks zero f ip blocks mem addr n i done = none
    write_chunks (suc fuel) f ip blocks mem addr n i done = elim (lt_int i n) [
      | false ↦ some (i, (done, (f, (ip, blocks))))
      | true ↦
          (let n1 = if lt_int max_write (n - i) then max_write else n - i in
            elim (transaction f ip blocks mem (addr + i) n1) [
              | none ↦ none
              | some r ↦ elim (lt_int r.0 0) [
                | true ↦ some (i, (n1 ∷ done, r.1))
                | false ↦ elim (r.0 == n1) [
                  | false ↦ none
                  | true ↦ write_chunks fuel r.1.0 r.1.1.0 r.1.1.1 mem addr n (i + r.0) (n1 ∷ done)
                ]
              ]
            ])
    ]

    pub filewrite :
        File → Inode → Blocks → Memory → ℕ → ℕ → IoEnd (List ℕ × (File × (Inode × Blocks)))
    unfolding write_chunks
    filewrite f ip blocks mem addr n = elim f.writable [
      | false ↦ returns minus_one ([], (f, (ip, blocks)))
      | true ↦ elim f.type [
        | fd_none ↦ stuck
        | fd_pipe ↦ on_pipe f.pipe addr n
        | fd_inode ↦ elim (write_chunks (suc n) f ip blocks mem addr n 0 []) [
          | none ↦ stuck
          | some r ↦ returns (if r.0 == n then n else minus_one) r.1
        ]
      ]
    ]
