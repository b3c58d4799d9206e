-- ===== src/Proc/Sched.antt =====
-- scheduler, sched, _should_yield, yield and sleep of proc.c, and the timer tick of trap.c.
pub mod Pass
pub mod Slice
pub mod Tests
use ut_os.Base.{
  ℕ, zero, suc, ◌+◌, ◌*◌, ◌%◌, ◌==◌, Bool, true, false, ◌&&◌, ◌||◌, not, if◌then◌else◌, Option,
  none, some, List, [], ◌∷◌, get_elem?, wrap, le_int,
}
use ut_os.Spinlock.{Cpu, Outcome, ok, panics, spins}
use ut_os.Proc.{
  Proc, Ptable, ProcState, sleeping, runnable, running, is_state, Chan, nil, of_ticks,
  acquire_ptable, release_ptable,
}
use ut_os.Proc.Alloc.{slot, update_slot}
use ut_os.Proc.Table.{wakeup}
use ut_os.Proc.Wait.{fall_asleep}
use ut_os.Proc.Queues.{rr_scheduler, sjf_scheduler, fcfs_scheduler, aging}

-- What a CPU keeps about the queues, `_current_queue` and `_consecutive_runs_queue`, with the static
-- variables `index` and `seed` of the choices.
pub record Queues : Type 0 where
  pub current_queue : ℕ
  pub runs : ℕ
  pub index : ℕ
  pub seed : ℕ

-- _NQUEUE of param.h.
abbrev pub nqueue : ℕ
nqueue = 3

abbrev pub next_queue : Queues → Queues
next_queue c =
    if c.runs == 0 then record c { current_queue = (c.current_queue + 1) % nqueue } else c

-- The choice in the current queue. `fuel` is for the shortest job first rounds.
pub choose : ℕ → ℕ → List Proc → Queues → Option (Option ℕ × Queues)
choose fuel ticks ps c =
    if c.current_queue == 1
    then elim (sjf_scheduler fuel ticks ps c.seed) [
      | none ↦ none
      | some (r, seed) ↦ some (r, record c { seed = seed })
    ]
    else (if c.current_queue == 2
        then some (fcfs_scheduler ps, c)
        else (let (r, index) = rr_scheduler ps c.index in some (r, record c { index = index })))

abbrev pub dispatch : Proc → Proc
dispatch p = record p { wait_time = 0; state = running }

-- The `do` loop of `scheduler` up to the switch to a process, or to its end, for at most `n` rounds;
-- no result means that there were not enough.
pub sweep : ℕ → ℕ → ℕ → Ptable → Queues → Option (Option ℕ × Ptable × Queues)
sweep zero fuel ticks t c = none
sweep (suc n) fuel ticks t c = elim (choose fuel ticks t.procs (next_queue c)) [
  | none ↦ none
  | some (none, c1) ↦
      (let c2 = record c1 { runs = 0 } in
        elim (c2.current_queue == 2) [
          | true ↦ some (none, t, c2)
          | false ↦ sweep n fuel ticks t c2
        ])
  | some (some i, c1) ↦ some (some i, update_slot t i dispatch, c1)
]

-- The test that ends the loop, when a process has come back.
abbrev pub goes_on : Queues → Bool
goes_on c = not (c.runs == 0) || not (c.current_queue == 2)

-- The checks of `sched` before it switches to the scheduler.
pub sched : Bool → Proc → Cpu → Outcome Cpu
sched holds p c =
    if not holds
    then panics
    else (if not (c.ncli == 1)
        then panics
        else (if is_state p.state running then panics else (if c.interrupts then panics else ok c)))

-- time_slice, rr_timeq and queue_weights of proc.h.
abbrev pub time_slice : ℕ
time_slice = 10

abbrev pub rr_timeq : ℕ
rr_timeq = 5

abbrev pub queue_weights : List ℕ
queue_weights = 3 ∷ 2 ∷ 1 ∷ []

-- The answer and the new count of runs. No answer where the C code reads behind `queue_weights`.
pub should_yield : Proc → ℕ → Option (Bool × ℕ)
should_yield p runs = elim (get_elem? queue_weights p.queue) [
  | none ↦ none
  | some weight ↦
      (let runs' = wrap (runs + 1) in
        if le_int (time_slice * weight) runs'
        then some (true, 0)
        else some (p.queue == 0 && le_int rr_timeq p.consecutive_runs, runs'))
]

abbrev pub count_run : Proc → Proc
count_run p = record p { consecutive_runs = wrap (p.consecutive_runs + 1) }

abbrev pub step_back : Proc → Proc
step_back p = record p { consecutive_runs = 0; state = runnable }

-- `yield` for the process `me`. It either goes into `sched` with the lock held (true), or returns.
pub yield : ℕ → Ptable → Queues → Option (Bool × Ptable × Queues)
yield me t c = elim (acquire_ptable t) [
  | none ↦ none
  | some t1 ↦
      (let t2 = update_slot t1 me count_run in
        elim (should_yield (slot t2 me) c.runs) [
          | none ↦ none
          | some (gives_up, runs) ↦
              if gives_up
              then some (true, update_slot t2 me step_back, record c { runs = runs })
              else some (false, release_ptable t2, record c { runs = runs })
        ])
]

-- `sleep` up to `sched`, with `lk` another lock than that of the table: `lk` is free and the table's
-- lock held.
pub sleep : ℕ → Chan → Ptable → Option Ptable
sleep me chan t = elim (acquire_ptable t) [
  | none ↦ none
  | some t1 ↦ some (update_slot t1 me (fall_asleep chan))
]

-- What a timer interrupt does on the first CPU with `tickslock` held.
pub tick : ℕ → Ptable → Option (ℕ × Ptable)
tick ticks t = elim (aging (wrap (ticks + 1)) t) [
  | none ↦ none
  | some t1 ↦ elim (wakeup of_ticks t1) [ none ↦ none | some t2 ↦ some (wrap (ticks + 1), t2) ]
]
