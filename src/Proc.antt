-- ===== src/Proc.antt =====
-- proc.h and the process table of proc.c. An `int` or `uint` field is its 32-bit pattern. A pointer to
-- a process is its index in the table. What a CPU keeps in registers and stacks (the trap frame but
-- for eax, the context, `swtch`) is left out.
pub mod Table
pub mod Alloc
pub mod Wait
pub mod Exit
pub mod Sched
pub mod Queues
pub mod Stats
pub mod Tests
use ut_os.Base.{
  ℕ, zero, suc, ◌+◌, ◌==◌, Bool, true, false, ◌&&◌, if◌then◌else◌, Option, none, some, List, [],
  ◌∷◌, replicate,
}

pub data ProcState : Type 0 where
  unused embryo sleeping runnable running zombie : ProcState

-- What a process sleeps on: nothing, a process, the tick counter, or another kernel address.
pub data Chan : Type 0 where
  nil : Chan
  of_proc : ℕ → Chan
  of_ticks : Chan
  of_addr : ℕ → Chan

abbrev pub is_state : ProcState → ProcState → Bool
is_state unused unused = true
is_state embryo embryo = true
is_state sleeping sleeping = true
is_state runnable runnable = true
is_state running running = true
is_state zombie zombie = true
is_state _ _ = false

abbrev pub is_chan : Chan → Chan → Bool
is_chan nil nil = true
is_chan (of_proc i) (of_proc j) = i == j
is_chan of_ticks of_ticks = true
is_chan (of_addr a) (of_addr b) = a == b
is_chan _ _ = false

abbrev pub is_ptr : ℕ → Option ℕ → Bool
is_ptr i none = false
is_ptr i (some j) = i == j

-- The channel of a pointer to a process.
abbrev pub chan_of : Option ℕ → Chan
chan_of none = nil
chan_of (some i) = of_proc i

-- The number of entries of `sc`, one for each name in `syscall_names`.
abbrev pub n_syscalls : ℕ
n_syscalls = 34

-- NPROC and NOFILE of param.h.
abbrev pub nproc : ℕ
nproc = 64

abbrev pub nofile : ℕ
nofile = 16

-- `killed` is whether the field is not zero; `kstack` and `pgdir` are addresses, 0 for null; an open
-- file and the directory are indices of the tables of files and inodes.
pub record Proc : Type 0 where
  pub sz : ℕ
  pub pgdir : ℕ
  pub kstack : ℕ
  pub state : ProcState
  pub pid : ℕ
  pub parent : Option ℕ
  pub eax : ℕ
  pub chan : Chan
  pub killed : Bool
  pub ofile : List (Option ℕ)
  pub cwd : Option ℕ
  pub name : List ℕ
  pub sc : List ℕ
  pub queue : ℕ
  pub wait_time : ℕ
  pub confidence : ℕ
  pub burst_time : ℕ
  pub consecutive_runs : ℕ
  pub arrival : ℕ

-- A slot of the table at boot.
unfoldable pub blank_proc : Proc
blank_proc = record {
  sz = 0;
  pgdir = 0;
  kstack = 0;
  state = unused;
  pid = 0;
  parent = none;
  eax = 0;
  chan = nil;
  killed = false;
  ofile = replicate nofile none;
  cwd = none;
  name = replicate 16 0;
  sc = replicate n_syscalls 0;
  queue = 0;
  wait_time = 0;
  confidence = 0;
  burst_time = 0;
  consecutive_runs = 0;
  arrival = 0;
}

-- `held` is `ptable.lock`.
pub record Ptable : Type 0 where
  pub held : Bool
  pub procs : List Proc
  pub nextpid : ℕ

-- No table where the caller would wait for the lock: for ever, if it holds the lock itself.
abbrev pub acquire_ptable : Ptable → Option Ptable
acquire_ptable t = if t.held then none else some (record t { held = true })

abbrev pub release_ptable : Ptable → Ptable
release_ptable t = record t { held = false }
