-- ===== src/Pipe.antt =====
-- pipe.c. A call holds `p->lock` from its start to its end or to a sleep, so it is one step; a call
-- that goes to sleep says so, and is entered again with what is left when it wakes up.
pub mod Window
pub mod Write
pub mod Read
pub mod Stream
pub mod Tests
use ut_os.Base.{
  ℕ, zero, suc, ◌+◌, ◌%◌, ◌==◌, Bool, true, false, ◌&&◌, ◌||◌, not, if◌then◌else◌, List, [], ◌∷◌,
  get_or, set, replicate, wrap,
}

abbrev pub pipe_size : ℕ
pipe_size = 512

pub record Pipe : Type 0 where
  pub buf : List ℕ
  pub nread : ℕ
  pub nwrite : ℕ
  pub readopen : Bool
  pub writeopen : Bool

-- What `pipealloc` stores in the page `p`, whose data bytes are what the page held.
pub pipe_init : List ℕ → Pipe
pipe_init page = record { buf = page; nread = 0; nwrite = 0; readopen = true; writeopen = true }

-- The sleepers that a call wakes: those on `&p->nread`, or those on `&p->nwrite`.
pub data Wake : Type 0 where
  readers writers : Wake

pub record Closed : Type 0 where
  pub pipe : Pipe
  pub woken : Wake
  pub freed : Bool

-- `freed` says that the page of the pipe went to `kfree`.
pub pipeclose : Pipe → Bool → Closed
pipeclose p writable =
    let p' = if writable then record p { writeopen = false } else record p { readopen = false } in
    record {
      pipe = p';
      woken = if writable then readers else writers;
      freed = not p'.readopen && not p'.writeopen;
    }

-- `p->nwrite == p->nread + PIPESIZE`, and `p->nread == p->nwrite`.
abbrev pub is_full : Pipe → Bool
is_full p = p.nwrite == wrap (p.nread + pipe_size)

abbrev pub is_empty : Pipe → Bool
is_empty p = p.nread == p.nwrite

-- `p->data[p->nwrite++ % PIPESIZE] = c`
abbrev pub put : Pipe → ℕ → Pipe
put p c = record p { buf = set p.buf (p.nwrite % pipe_size) c; nwrite = wrap (p.nwrite + 1) }

-- How a call of `pipewrite` ends: all bytes copied, -1, or asleep on `&p->nwrite` with the bytes that
-- are left.
pub data Written : Type 0 where
  copied failed : Written
  asleep : List ℕ → Written

-- The loop of `pipewrite` over the bytes left. `killed` is that of the calling process.
pub write_loop : Pipe → Bool → List ℕ → Pipe × Written
write_loop p killed [] = (p, copied)
write_loop p killed (c ∷ cs) =
    let rest = write_loop (put p c) killed cs in
    if is_full p
    then (if not p.readopen || killed then (p, failed) else (p, asleep (c ∷ cs)))
    else rest

-- Both a full pipe and the end of the call wake the readers; a failure wakes nobody.
abbrev pub woken_by_write : Written → List Wake
woken_by_write failed = []
woken_by_write _ = readers ∷ []

pub pipewrite : Pipe → Bool → List ℕ → Pipe × Written × List Wake
pipewrite p killed cs = let (p', w) = write_loop p killed cs in (p', w, woken_by_write w)

-- How a call of `piperead` ends: with bytes for the caller, -1, or asleep on `&p->nread`.
pub data ReadEnd : Type 0 where
  got : List ℕ → ReadEnd
  failed asleep : ReadEnd

-- `p->nread++`
abbrev pub advance : Pipe → Pipe
advance p = record p { nread = wrap (p.nread + 1) }

-- `addr[i] = p->data[p->nread++ % PIPESIZE]` up to `n` times.
pub read_loop : Pipe → ℕ → Pipe × List ℕ
read_loop p zero = (p, [])
read_loop p (suc n) =
    let rest = read_loop (advance p) n in
    if is_empty p then (p, []) else (rest.0, get_or p.buf (p.nread % pipe_size) 0 ∷ rest.1)

pub piperead : Pipe → Bool → ℕ → Pipe × ReadEnd × List Wake
piperead p killed n =
    if is_empty p && p.writeopen
    then (if killed then (p, ReadEnd.failed, []) else (p, ReadEnd.asleep, []))
    else (let (p', cs) = read_loop p n in (p', got cs, writers ∷ []))
