-- ===== src/Files.antt =====
-- The table of open files of file.c. A call runs under `ftable.lock` and is one step; a file is its
-- index.
pub mod Io
use ut_os.Base.{
  ℕ, ◌+◌, ◌-◌, ◌==◌, Bool, false, if◌then◌else◌, Option, none, some, List, get_or, find_index,
  modify, wrap, lt_int,
}

pub data FileType : Type 0 where
  fd_none fd_pipe fd_inode : FileType

pub record File : Type 0 where
  pub type : FileType
  pub ref : ℕ
  pub readable : Bool
  pub writable : Bool
  pub pipe : ℕ
  pub ip : ℕ
  pub off : ℕ

abbrev pub no_file : File
no_file = record {
  type = fd_none;
  ref = 0;
  readable = false;
  writable = false;
  pipe = 0;
  ip = 0;
  off = 0;
}

pub filealloc : List File → Option ℕ × List File
filealloc fs = elim (find_index (λ f. f.ref == 0) fs) [
  | none ↦ (none, fs)
  | some i ↦ (some i, modify (λ f. record f { ref = 1 }) fs i)
]

pub filedup : ℕ → List File → Option (List File)
filedup i fs =
    if lt_int (get_or fs i no_file).ref 1
    then none
    else some (modify (λ f. record f { ref = wrap (f.ref + 1) }) fs i)

-- What is left to do outside the lock: nothing, `pipeclose`, or `iput` within a transaction.
pub data Closing : Type 0 where
  nothing : Closing
  close_pipe : (pipe : ℕ) (writable : Bool) → Closing
  put_inode : (ip : ℕ) → Closing

abbrev pub closing : File → FileType → Closing
closing f fd_none = nothing
closing f fd_pipe = close_pipe f.pipe f.writable
closing f fd_inode = put_inode f.ip

pub fileclose : ℕ → List File → Option (Closing × List File)
fileclose i fs =
    let f = get_or fs i no_file in
    if lt_int f.ref 1
    then none
    else (if lt_int 0 (f.ref - 1)
        then some (nothing, modify (λ g. record g { ref = g.ref - 1 }) fs i)
        else some (closing f f.type, modify (λ g. record g { ref = 0; type = fd_none }) fs i))
