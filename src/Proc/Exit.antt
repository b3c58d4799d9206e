-- ===== src/Proc/Exit.antt =====
-- exit of proc.c.
pub mod Laws
use ut_os.Base.{
  ℕ, zero, suc, ◌+◌, ◌==◌, Bool, true, false, ◌&&◌, if◌then◌else◌, Option, none, some, List, [],
  ◌∷◌, replicate, get_or, modify,
}
use ut_os.Proc.{
  Proc, Ptable, ProcState, zombie, is_state, of_proc, chan_of, nproc, nofile, blank_proc,
  acquire_ptable, release_ptable,
}
use ut_os.Proc.Table.{wakeup1}
use ut_os.Proc.Alloc.{slot, update_slot}
use ut_os.Proc.Wait.{is_child}

-- `p->parent = initproc`
abbrev pub adopt : ℕ → Proc → Proc
adopt init p = record p { parent = some init }

-- One round of the loop that passes abandoned children to init, at slot `i`.
abbrev pub abandon_one : ℕ → ℕ → ℕ → List Proc → List Proc
abandon_one me init i ps =
    let p = get_or ps i blank_proc in
    let ps' = modify (adopt init) ps i in
    if is_child me p
    then (if is_state p.state zombie then wakeup1 (of_proc init) ps' else ps')
    else ps

-- The rounds at `n` slots from `i` on.
pub abandon : ℕ → ℕ → ℕ → ℕ → List Proc → List Proc
abandon me init zero i ps = ps
abandon me init (suc n) i ps = abandon me init n (i + 1) (abandon_one me init i ps)

-- The files that the loop closes and the directory that it puts.
abbrev pub close_all : Proc → Proc
close_all p = record p { ofile = replicate nofile none; cwd = none }

abbrev pub die : Proc → Proc
die p = record p { state = zombie }

-- Up to the switch into the scheduler, with the lock held; init must not exit. `fileclose` and `iput`
-- are called for the files and the directory that the process had.
pub exit : ℕ → ℕ → Ptable → Option (List (Option ℕ) × Option ℕ × Ptable)
exit me init t =
    if me == init
    then none
    else (let p = slot t me in
        elim (acquire_ptable (update_slot t me close_all)) [
          | none ↦ none
          | some t1 ↦
              (let ps = wakeup1 (chan_of (slot t1 me).parent) t1.procs in
                let ps' = abandon me init nproc 0 ps in
                some (p.ofile, p.cwd, record t1 { procs = modify die ps' me }))
        ])
