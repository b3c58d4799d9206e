-- ===== src/Log.antt =====
-- log.c: the write-ahead log. A block's data is of some type. The blocks of the log on disk, the
-- header and the slots behind it, lie apart from the home blocks that the header names. A call holds
-- `log.lock` or is alone in commit. A call that would sleep has no result here, as has one that
-- panics.
pub mod Crash
pub mod Tests
use ut_os.Base.{
  ℕ, zero, suc, ◌+◌, ◌-◌, ◌*◌, ◌==◌, sub_word, ltb, leb, Bool, true, false, ◌&&◌, ◌||◌,
  if◌then◌else◌, Option, none, some, List, [], ◌∷◌, ◌++◌, length, get_or, update,
}

-- MAXOPBLOCKS and LOGSIZE of param.h.
abbrev pub max_op_blocks : ℕ
max_op_blocks = 10

abbrev pub log_size : ℕ
log_size = 30

-- `size`, `outstanding` as the pattern of an int, and the header in memory, `lh.n` its length.
pub record Log : Type 0 where
  pub size : ℕ
  pub outstanding : ℕ
  pub committing : Bool
  pub lh : List ℕ

pub begin_op : Log → Option Log
begin_op l =
    if l.committing || ltb log_size (length l.lh + (l.outstanding + 1) * max_op_blocks)
    then none
    else some (record l { outstanding = l.outstanding + 1 })

-- The part under the lock, and whether the caller commits.
pub end_op : Log → Option (Bool × Log)
end_op l =
    if l.committing
    then none
    else (let left = sub_word l.outstanding 1 in
        if left == 0
        then some (true, record l { outstanding = 0; committing = true })
        else some (false, record l { outstanding = left }))

-- The commit has emptied the header.
pub end_commit : Log → Log
end_commit l = record l { committing = false; lh = [] }

abbrev pub absorb : ℕ → List ℕ → List ℕ
absorb b [] = b ∷ []
absorb b (x ∷ xs) = let rest = absorb b xs in if x == b then x ∷ xs else x ∷ rest

pub log_write : ℕ → Log → Option Log
log_write b l =
    if leb log_size (length l.lh) || leb (l.size - 1) (length l.lh) || ltb l.outstanding 1
    then none
    else some (record l { lh = absorb b l.lh })

module _ (D : Type 0) where
  -- The disk: the home blocks, the slots of the log, and the blocks that its header names.
  pub record Disk : Type 0 where
    pub home : ℕ → D
    pub slots : ℕ → D
    pub head : List ℕ

  -- A `bwrite`, which a crash does or does not let happen.
  pub data Write : Type 0 where
    to_home to_slot : ℕ → D → Write
    to_head : List ℕ → Write

  abbrev pub bwrite : Write → Disk → Disk
  bwrite (to_home b x) d = record d { home = update d.home b x }
  bwrite (to_slot i x) d = record d { slots = update d.slots i x }
  bwrite (to_head bs) d = record d { head = bs }

  -- `install_trans` for `n` blocks from slot `i` on.
  pub install_trans : (ℕ → ℕ) → (ℕ → D) → ℕ → ℕ → List Write
  install_trans block slots i zero = []
  install_trans block slots i (suc n) =
      to_home (block i) (slots i) ∷ install_trans block slots (i + 1) n

  -- `write_log` for `n` blocks from slot `i` on; `cache` holds the modified blocks.
  pub write_log : (ℕ → ℕ) → (ℕ → D) → ℕ → ℕ → List Write
  write_log block cache i zero = []
  write_log block cache i (suc n) = to_slot i (cache (block i)) ∷ write_log block cache (i + 1) n

  abbrev pub block_of : List ℕ → ℕ → ℕ
  block_of bs i = get_or bs i 0

  -- The writes of `commit`, in order. `install_trans` reads back what `write_log` has stored.
  pub commit : (ℕ → D) → List ℕ → List Write
  commit cache [] = []
  commit cache (b ∷ bs) =
      let block = block_of (b ∷ bs) in
      let n = length (b ∷ bs) in
      write_log block cache 0 n
      ++ (to_head (b ∷ bs) ∷ (install_trans block (λ i. cache (block i)) 0 n ++ (to_head [] ∷ [])))

  -- The disk after the first `n` of the writes.
  pub after_writes : ℕ → List Write → Disk → Disk
  after_writes zero ws d = d
  after_writes (suc n) [] d = d
  after_writes (suc n) (w ∷ ws) d = after_writes n ws (bwrite w d)

  pub all_writes : List Write → Disk → Disk
  all_writes [] d = d
  all_writes (w ∷ ws) d = all_writes ws (bwrite w d)

  pub recover_from_log : Disk → Disk
  recover_from_log d =
      bwrite (to_head []) (all_writes (install_trans (block_of d.head) d.slots 0 (length d.head)) d)
