-- ===== src/Proc/Wait.antt =====
-- wait of proc.c.
pub mod Laws
use ut_os.Base.{
  ℕ, zero, suc, ◌==◌, Bool, true, false, ◌&&◌, ◌||◌, not, if◌then◌else◌, Option, none, some, List,
  [], ◌∷◌, replicate, set, get_or, modify, minus_one,
}
use mathlib.Core.Option
use ut_os.Proc.{
  Proc, Ptable, ProcState, unused, sleeping, zombie, is_state, is_ptr, Chan, nil, of_proc,
  n_syscalls, blank_proc, acquire_ptable, release_ptable,
}
use ut_os.Proc.Alloc.{slot, update_slot}

abbrev pub is_child : ℕ → Proc → Bool
is_child me p = is_ptr me p.parent

-- The scan of the table: whether a child was met, and the first child that is a zombie.
pub scan_children : ℕ → List Proc → Bool × Option ℕ
scan_children me [] = (false, none)
scan_children me (p ∷ ps) =
    let (kids, found) = scan_children me ps in
    if not (is_child me p)
    then (kids, Option.map suc found)
    else (if is_state p.state zombie then (true, some 0) else (true, Option.map suc found))

abbrev pub reap : ℕ → Proc → Proc
reap ticks p = record p {
  kstack = 0;
  pid = 0;
  parent = none;
  name = set p.name 0 0;
  sc = replicate n_syscalls 0;
  queue = 2;
  wait_time = 0;
  confidence = 50;
  burst_time = 2;
  consecutive_runs = 0;
  arrival = ticks;
  killed = false;
  state = unused;
}

-- How a call ends: with the pid of a child, whose stack and page table go to `kfree` and `freevm`; with
-- -1; or asleep, on the way into the scheduler with the lock held.
pub data WaitEnd : Type 0 where
  reaped : (pid kstack pgdir : ℕ) → WaitEnd
  childless asleep : WaitEnd

-- `sleep(curproc, &ptable.lock)`
abbrev pub fall_asleep : Chan → Proc → Proc
fall_asleep chan p = record p { chan = chan; state = sleeping }

pub wait : ℕ → ℕ → Ptable → Option (WaitEnd × Ptable)
wait ticks me t = elim (acquire_ptable t) [
  | none ↦ none
  | some t1 ↦
      (let (kids, found) = scan_children me t1.procs in
        elim found [
          | some i ↦
              (let p = slot t1 i in
                some
                  (reaped p.pid p.kstack p.pgdir, release_ptable (update_slot t1 i (reap ticks))))
          | none ↦
              if not kids || (slot t1 me).killed
              then some (childless, release_ptable t1)
              else some (asleep, update_slot t1 me (fall_asleep (of_proc me)))
        ])
]
