-- ===== src/BufferCache.antt =====
-- bio.c: the buffer cache, with the disk of memide.c below it. A buffer is its index in `bcache.buf`,
-- and the head of the list is the index behind them. A block's data is of some type. `bcache.lock`
-- makes each part of a call that it covers one step.
pub mod Ring
pub mod Release
pub mod Lookup
pub mod Blocks
pub mod Tests
use ut_os.Base.{
  ℕ, zero, suc, ◌+◌, ◌==◌, leb, Bool, true, false, ◌&&◌, ◌||◌, not, if◌then◌else◌, Option, none,
  some, update, wrap, sub_word,
}
use ut_os.Reentrant.{Sleeplock, acquiresleep, releasesleep, holdingsleep}

-- NBUF of param.h.
abbrev pub nbuf : ℕ
nbuf = 30

abbrev pub head : ℕ
head = nbuf

module _ (D : Type 0) where
  -- `valid` and `dirty` are B_VALID and B_DIRTY of the flags.
  pub record Buf : Type 0 where
    pub valid : Bool
    pub dirty : Bool
    pub dev : ℕ
    pub blockno : ℕ
    pub lock : Sleeplock
    pub refcnt : ℕ
    pub bytes : D

  pub record Bcache : Type 0 where
    pub buf : ℕ → Buf
    pub next : ℕ → ℕ
    pub prev : ℕ → ℕ

  -- The four stores that put `b` behind the head of the list.
  abbrev pub link_front : ℕ → Bcache → Bcache
  link_front b c =
      let c1 = record c { next = update c.next b (c.next head) } in
      let c2 = record c1 { prev = update c1.prev b head } in
      let c3 = record c2 { prev = update c2.prev (c2.next head) b } in
      record c3 { next = update c3.next head b }

  -- The two stores that take `b` out of it.
  abbrev pub unlink : ℕ → Bcache → Bcache
  unlink b c =
      let c1 = record c { prev = update c.prev (c.next b) (c.prev b) } in
      record c1 { next = update c1.next (c1.prev b) (c1.next b) }

  -- The loop of `binit`, for `n` buffers from `b` on. Their locks are free from the start.
  pub link_all : ℕ → ℕ → Bcache → Bcache
  link_all zero b c = c
  link_all (suc n) b c = link_all n (b + 1) (link_front b c)

  pub binit : Bcache → Bcache
  unfolding link_all
  binit c =
      link_all nbuf 0 (record c { next = update c.next head head; prev = update c.prev head head })

  -- A walk from `b` along the list to the first buffer that passes the test, in `fuel` rounds.
  pub walk : (ℕ → ℕ) → (Buf → Bool) → (ℕ → Buf) → ℕ → ℕ → Option ℕ
  walk step test buf zero b = none
  walk step test buf (suc fuel) b =
      let rest = walk step test buf fuel (step b) in
      if b == head then none else (if test (buf b) then some b else rest)

  abbrev pub is_cached : ℕ → ℕ → Buf → Bool
  is_cached dev blockno b = b.dev == dev && b.blockno == blockno

  abbrev pub is_unused : Buf → Bool
  is_unused b = b.refcnt == 0 && not b.dirty

  abbrev pub with_buf : ℕ → (Buf → Buf) → Bcache → Bcache
  with_buf i f c = record c { buf = update c.buf i (f (c.buf i)) }

  abbrev pub take_ref : Buf → Buf
  take_ref b = record b { refcnt = wrap (b.refcnt + 1) }

  abbrev pub recycle : ℕ → ℕ → Buf → Buf
  recycle dev blockno b = record b {
    dev = dev;
    blockno = blockno;
    valid = false;
    dirty = false;
    refcnt = 1;
  }

  -- `bget` up to the lock of the buffer; none is the panic. More than `nbuf` rounds end every walk.
  pub bget : ℕ → ℕ → Bcache → Option (ℕ × Bcache)
  bget dev blockno c = elim (walk c.next (is_cached dev blockno) c.buf (nbuf + 1) (c.next head)) [
    | some i ↦ some (i, with_buf i take_ref c)
    | none ↦ elim (walk c.prev is_unused c.buf (nbuf + 1) (c.prev head)) [
      | some i ↦ some (i, with_buf i (recycle dev blockno) c)
      | none ↦ none
    ]
  ]

  -- A buffer synchronised with the disk of `size` blocks; none is a panic.
  pub iderw : ℕ → ℕ → Buf → (ℕ → D) → Option (Buf × (ℕ → D))
  iderw me size b disk =
      if not (holdingsleep me b.lock)
        || (b.valid && not b.dirty)
        || (not (b.dev == 1) || leb size b.blockno)
      then none
      else (if b.dirty
          then some (record b { dirty = false; valid = true }, update disk b.blockno b.bytes)
          else some (record b { bytes = disk b.blockno; valid = true }, disk))

  -- How a call of `bread` ends: with the locked buffer, asleep on its lock, or in a panic.
  pub data ReadEnd : Type 0 where
    locked asleep : ℕ → ReadEnd
    panics : ReadEnd

  pub bread : ℕ → ℕ → ℕ → ℕ → Bcache → (ℕ → D) → ReadEnd × Bcache × (ℕ → D)
  bread me size dev blockno c disk = elim (bget dev blockno c) [
    | none ↦ (panics, c, disk)
    | some (i, c1) ↦ elim (acquiresleep me (c1.buf i).lock) [
      | none ↦ (asleep i, c1, disk)
      | some lk ↦
          (let c2 = with_buf i (λ b. record b { lock = lk }) c1 in
            if (c2.buf i).valid
            then (locked i, c2, disk)
            else (elim (iderw me size (c2.buf i) disk) [
              | none ↦ (panics, c2, disk)
              | some (b, disk') ↦ (locked i, with_buf i (λ _. b) c2, disk')
            ]))
    ]
  ]

  pub bwrite : ℕ → ℕ → ℕ → Bcache → (ℕ → D) → Option (Bcache × (ℕ → D))
  bwrite me size i c disk =
      if not (holdingsleep me (c.buf i).lock)
      then none
      else (elim (iderw me size (record (c.buf i) { dirty = true }) disk) [
        | none ↦ none
        | some (b, disk') ↦ some (with_buf i (λ _. b) c, disk')
      ])

  abbrev pub drop_ref : Buf → Buf
  drop_ref b = record b { lock = releasesleep b.lock; refcnt = sub_word b.refcnt 1 }

  pub brelse : ℕ → ℕ → Bcache → Option Bcache
  brelse me i c =
      if not (holdingsleep me (c.buf i).lock)
      then none
      else (let c1 = with_buf i drop_ref c in
          some (if (c1.buf i).refcnt == 0 then link_front i (unlink i c1) else c1))
