-- ===== src/FileSystem/Directory.antt =====
-- fs.c: directories and path names, over the inode cache, the blocks and the memory. `de` is the
-- address of the local of that name, `me` the pid of the caller, and none a panic, or a loop out of
-- fuel.
use ut_os.Base.{
  ℕ, zero, suc, ◌+◌, ◌==◌, ltb, Bool, true, false, ◌&&◌, not, if◌then◌else◌, Option, none, some,
  update, minus_one,
}
use ut_os.Strings.{Memory, strncpy}
use ut_os.FileSystem.{Superblock, Blocks}
use ut_os.FileSystem.Inode.{Inode, load_half, store_half, iget, idup, ilock, iunlock}
use ut_os.FileSystem.Content.{readi, writei, iput, iunlockput}
use ut_os.FileSystem.Names.{dir_size, slash, namecmp, skipelem}

-- T_DIR of stat.h.
abbrev pub t_dir : ℕ
t_dir = 1

-- `sizeof(struct dirent)`: the inode number and the name.
abbrev pub dirent_size : ℕ
dirent_size = 16

abbrev pub root_dev : ℕ
root_dev = 1

abbrev pub root_ino : ℕ
root_ino = 1

pub record Fs : Type 0 where
  pub icache : ℕ → Inode
  pub blocks : Blocks
  pub mem : Memory

module _ (sb : Superblock) (has : ℕ → Bool)
    (dev_read : ℕ → Inode → ℕ → ℕ → Memory → ℕ × Memory) where
  -- `readi(dp, (char*)&de, off, sizeof(de)) != sizeof(de)` is a panic.
  pub read_dirent : Fs → ℕ → ℕ → ℕ → Option Fs
  unfolding readi
  read_dirent fs dp de off =
      elim (readi sb has dev_read (fs.icache dp) fs.blocks fs.mem de off dirent_size) [
        | none ↦ none
        | some r ↦
            if r.0 == dirent_size
            then some
                (record { icache = update fs.icache dp r.1.0; blocks = r.1.1.0; mem = r.1.1.1 })
            else none
      ]

  -- The loop of `dirlookup` from `off` on, with fuel. The result has the offset and the entry of the
  -- inode cache.
  pub lookup_from : ℕ → Fs → ℕ → ℕ → ℕ → ℕ → Option (Option (ℕ × ℕ) × Fs)
  unfolding read_dirent iget namecmp
  lookup_from zero fs dp name de off = none
  lookup_from (suc fuel) fs dp name de off = elim (ltb off (fs.icache dp).size) [
    | false ↦ some (none, fs)
    | true ↦ elim (read_dirent fs dp de off) [
      | none ↦ none
      | some fs' ↦ elim (not (load_half fs'.mem de == 0) && namecmp fs'.mem name (de + 2) == 0) [
        | false ↦ lookup_from fuel fs' dp name de (off + dirent_size)
        | true ↦ elim (iget (fs'.icache dp).dev (load_half fs'.mem de) fs'.icache) [
          | none ↦ none
          | some r ↦ some (some (off, r.0), record fs' { icache = r.1 })
        ]
      ]
    ]
  ]

  pub dirlookup : Fs → ℕ → ℕ → ℕ → Option (Option (ℕ × ℕ) × Fs)
  unfolding lookup_from
  dirlookup fs dp name de =
      if not ((fs.icache dp).type == t_dir)
      then none
      else lookup_from (suc (fs.icache dp).size) fs dp name de 0

  -- The loop of `dirlink`: the offset of the first empty entry, or the end.
  pub empty_from : ℕ → Fs → ℕ → ℕ → ℕ → Option (ℕ × Fs)
  unfolding read_dirent
  empty_from zero fs dp de off = none
  empty_from (suc fuel) fs dp de off = elim (ltb off (fs.icache dp).size) [
    | false ↦ some (off, fs)
    | true ↦ elim (read_dirent fs dp de off) [
      | none ↦ none
      | some fs' ↦ elim (load_half fs'.mem de == 0) [
        | true ↦ some (off, fs')
        | false ↦ empty_from fuel fs' dp de (off + dirent_size)
      ]
    ]
  ]

  -- `iput` and `iunlockput` of entry `i`.
  pub put_entry : ℕ → ℕ → Fs → Option Fs
  unfolding iput
  put_entry me i fs = elim (iput sb me (fs.icache i) fs.blocks) [
    | none ↦ none
    | some r ↦ some (record fs { icache = update fs.icache i r.0; blocks = r.1 })
  ]

  pub unlock_put_entry : ℕ → ℕ → Fs → Option Fs
  unfolding iunlockput
  unlock_put_entry me i fs = elim (iunlockput sb me (fs.icache i) fs.blocks) [
    | none ↦ none
    | some r ↦ some (record fs { icache = update fs.icache i r.0; blocks = r.1 })
  ]

  module _ (has_write : ℕ → Bool) (dev_write : ℕ → Inode → ℕ → ℕ → Memory → ℕ) where
    -- The end of `dirlink`: the entry (name, inum) is written at `off`.
    pub write_dirent : Fs → ℕ → ℕ → ℕ → ℕ → ℕ → Option Fs
    unfolding writei
    write_dirent fs dp name inum de off =
        let mem' = store_half (strncpy fs.mem (de + 2) name dir_size) de inum in
        elim (writei sb has_write dev_write (fs.icache dp) fs.blocks mem' de off dirent_size) [
          | none ↦ none
          | some r ↦
              if r.0 == dirent_size
              then some (record { icache = update fs.icache dp r.1.0; blocks = r.1.1; mem = mem' })
              else none
        ]

    abbrev pub dirlink : ℕ → Fs → ℕ → ℕ → ℕ → ℕ → Option (ℕ × Fs)
    dirlink me fs dp name inum de = elim (dirlookup fs dp name de) [
      | none ↦ none
      | some (some found, fs') ↦ elim (put_entry me found.1 fs') [
        | none ↦ none
        | some done ↦ some (minus_one, done)
      ]
      | some (none, fs') ↦ elim (empty_from (suc (fs'.icache dp).size) fs' dp de 0) [
        | none ↦ none
        | some r ↦ elim (write_dirent r.1 dp name inum de r.0) [
          | none ↦ none
          | some done ↦ some (0, done)
        ]
      ]
    ]

  -- The loop of `namex` at entry `ip`, with fuel for the elements; the fuel of skipelem is `f`. No
  -- entry is the null result. `de` is the local of dirlookup.
  module _ (me f de : ℕ) (parent : Bool) (name : ℕ) where
    -- `iunlockput(ip); return 0;`
    abbrev give_up : Fs → ℕ → Option (Option ℕ × Fs)
    give_up fs ip = elim (unlock_put_entry me ip fs) [ none ↦ none | some done ↦ some (none, done) ]

    pub walk_path : ℕ → Fs → ℕ → ℕ → Option (Option ℕ × Fs)
    unfolding skipelem ilock iunlock dirlookup unlock_put_entry put_entry
    walk_path zero fs ip path = none
    walk_path (suc fuel) fs ip path = elim (skipelem f fs.mem path name) [
      | none ↦ none
      | some (zero, mem') ↦
          if parent
          then (elim (put_entry me ip (record fs { mem = mem' })) [
            | none ↦ none
            | some done ↦ some (none, done)
          ])
          else some (some ip, record fs { mem = mem' })
      | some (suc path', mem') ↦ elim (ilock sb me (fs.icache ip) fs.blocks) [
        | none ↦ none
        | some locked ↦
            (let fs1 = record fs { icache = update fs.icache ip locked; mem = mem' } in
              elim (locked.type == t_dir) [
                | false ↦ give_up fs1 ip
                | true ↦ elim (parent && mem' (suc path') == 0) [
                  | true ↦ elim (iunlock me locked) [
                    | none ↦ none
                    | some free ↦ some (some ip, record fs1 { icache = update fs1.icache ip free })
                  ]
                  | false ↦ elim (dirlookup fs1 ip name de) [
                    | none ↦ none
                    | some (none, fs2) ↦ give_up fs2 ip
                    | some (some next, fs2) ↦ elim (unlock_put_entry me ip fs2) [
                      | none ↦ none
                      | some fs3 ↦ walk_path fuel fs3 next.1 (suc path')
                    ]
                  ]
                ]
              ])
      ]
    ]

    -- `cwd` is the entry of the caller's current directory.
    abbrev pub namex : ℕ → ℕ → Fs → ℕ → Option (Option ℕ × Fs)
    namex fuel cwd fs path = elim (fs.mem path == slash) [
      | true ↦ elim (iget root_dev root_ino fs.icache) [
        | none ↦ none
        | some r ↦ walk_path fuel (record fs { icache = r.1 }) r.0 path
      ]
      | false ↦ (let r = idup cwd fs.icache in walk_path fuel (record fs { icache = r.1 }) r.0 path)
    ]

  -- `namei` has room for a name of its own, at `name`.
  abbrev pub namei : ℕ → ℕ → ℕ → ℕ → ℕ → ℕ → Fs → ℕ → Option (Option ℕ × Fs)
  namei me f de name fuel cwd fs path = namex me f de false name fuel cwd fs path

  abbrev pub nameiparent : ℕ → ℕ → ℕ → ℕ → ℕ → ℕ → Fs → ℕ → Option (Option ℕ × Fs)
  nameiparent me f de name fuel cwd fs path = namex me f de true name fuel cwd fs path
