-- ===== src/Proc/Table.antt =====
-- Scans of the process table: the first slot that passes a test, and the wakeup and kill of proc.c.
pub mod Laws
use ut_os.Base.{
  ℕ, zero, suc, ◌+◌, ◌==◌, ◌<◌, ◌≡◌, refl, ap, Bool, true, false, ◌&&◌, if◌then◌else◌, Option, none,
  some, List, [], ◌∷◌, map, get_or, set, length, find_index, modify, minus_one, arith,
}
use ut_os.Proc.{
  Proc, Ptable, ProcState, sleeping, runnable, Chan, is_state, is_chan, acquire_ptable,
  release_ptable,
}

abbrev pub wake_one : Chan → Proc → Proc
wake_one chan p =
    if is_state p.state sleeping && is_chan p.chan chan then record p { state = runnable } else p

pub wakeup1 : Chan → List Proc → List Proc
wakeup1 chan ps = map (wake_one chan) ps

pub wakeup : Chan → Ptable → Option Ptable
wakeup chan t = elim (acquire_ptable t) [
  | none ↦ none
  | some t1 ↦ some (release_ptable (record t1 { procs = wakeup1 chan t1.procs }))
]

abbrev pub mark_killed : Proc → Proc
mark_killed p = record p {
  killed = true;
  state = if is_state p.state sleeping then runnable else p.state;
}

-- The result is 0 or -1.
pub kill : ℕ → Ptable → Option (ℕ × Ptable)
kill pid t = elim (acquire_ptable t) [
  | none ↦ none
  | some t1 ↦ elim (find_index (λ p. p.pid == pid) t1.procs) [
    | none ↦ some (minus_one, release_ptable t1)
    | some i ↦ some (0, release_ptable (record t1 { procs = modify mark_killed t1.procs i }))
  ]
]
