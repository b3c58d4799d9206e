-- ===== src/Proc/Tests.antt =====
-- The process table and the scheduler at work.
use ut_os.Base.{
  ℕ, zero, suc, ◌<◌, ◌≡◌, ◌≢◌, refl, ap, sym, ◌∙◌, ℕ-cases, true, false, if◌then◌else◌, Option,
  none, some, List, ◌∷◌, length, get_or, get_or-replicate, replicate, IsFirst, arith,
}
use ut_os.Kalloc.{Kmem}
use ut_os.Proc.{
  Proc, Ptable, unused, sleeping, runnable, running, zombie, of_proc, of_ticks, blank_proc, nproc,
}
use ut_os.Proc.Alloc.{slot, update_slot, allocproc}
use ut_os.Proc.Alloc.Laws.{IsValid, Allocated, allocproc_lem}
use ut_os.Proc.Wait.{is_child, reaped, childless, asleep, fall_asleep, wait}
use ut_os.Proc.Wait.Laws.{is_dead_child, NoneDead, wait_lem}
use ut_os.Proc.Exit.{exit}
use ut_os.Proc.Exit.Laws.{exit_lem, after}

pub blank-unused : blank_proc.state ≡ unused
unfolding blank_proc
blank-unused = refl

pub blank-pid : blank_proc.pid ≡ 0
unfolding blank_proc
blank-pid = refl

abbrev pub blanks : List Proc
blanks = replicate 63 blank_proc

pub blanks-slot : (j : ℕ) → get_or blanks j blank_proc ≡ blank_proc
blanks-slot j = get_or-replicate 63 blank_proc j

-- A table with one process.
abbrev pub table_of : Proc → Ptable
table_of p = record { held = false; procs = p ∷ blanks; nextpid = 2 }

abbrev sleeper : Proc
sleeper = record blank_proc { pid = 1; state = sleeping; chan = of_ticks }

sleeper-first : (i : ℕ) → (slot (table_of sleeper) i).pid ≢ 0 → i ≡ 0
sleeper-first zero n = refl
sleeper-first (suc i) n = absurd (n (ap (λ p. p.pid) (blanks-slot i) ∙ blank-pid))

sleeper-IsValid : IsValid (table_of sleeper)
sleeper-IsValid = record {
  unlocked = refl;
  size = refl;
  fresh = ℕ-cases _ (omega arith) (λ j. ground (arith, blanks-slot j, blank-pid));
  distinct = λ i j n e. sleeper-first i n ∙ sym (sleeper-first j (λ z. n (e ∙ z)));
}

abbrev memory : Kmem
memory = record { mem = λ x. 0; use_lock = true; freelist = 0x80400000 }

allocproc_lem_example :
    (r : Option ℕ) × (t' : Ptable) × (k' : Kmem) × (allocproc 9 (table_of sleeper) memory
      ≡ some (r, t', k'))
    × IsValid t'
    × Allocated (table_of sleeper) r t'
allocproc_lem_example = allocproc_lem 9 (table_of sleeper) memory sleeper-IsValid (omega arith)

abbrev zombie_child : Proc
zombie_child = record blank_proc {
  pid = 2;
  state = zombie;
  parent = some 0;
  kstack = 4096;
  pgdir = 8192;
}

abbrev mother : Proc
mother = record blank_proc { pid = 1; state = running }

-- A process and its dead child.
abbrev family : Ptable
family = record {
  held = false;
  procs = mother ∷ zombie_child ∷ replicate 62 blank_proc;
  nextpid = 3;
}

wait_lem_example :
    ((i : ℕ)
      → IsFirst (is_dead_child 0) family.procs blank_proc i
      → (t' : Ptable) × (wait 5 0 family
          ≡ some (reaped (slot family i).pid (slot family i).kstack (slot family i).pgdir, t'))
        × ((slot t' i).state ≡ unused)
        × ((slot t' i).pid ≡ 0)
        × ((slot t' i).parent ≡ none)
        × ((k : ℕ) → i ≢ k → slot t' k ≡ slot family k)
        × (t'.held ≡ false))
    × (((j : ℕ) → j < length family.procs → is_child 0 (slot family j) ≡ false)
        → wait 5 0 family ≡ some (childless, record family { held = false }))
    × ((j : ℕ)
        → j < length family.procs
        → is_child 0 (slot family j) ≡ true
        → NoneDead 0 family
        → wait 5 0 family ≡ (
            if (slot family 0).killed
            then some (childless, record family { held = false })
            else some
                (asleep, record (update_slot family 0 (fall_asleep (of_proc 0))) { held = true })))
wait_lem_example = wait_lem 5 0 family refl

-- Process 1, a child of init, which sleeps in slot 0.
abbrev init_asleep : Proc
init_asleep = record blank_proc { pid = 1; state = sleeping; chan = of_proc 0 }

abbrev shell : Proc
shell = record blank_proc { pid = 2; state = running; parent = some 0; cwd = some 4 }

abbrev boot : Ptable
boot = record { held = false; procs = init_asleep ∷ shell ∷ replicate 62 blank_proc; nextpid = 3 }

-- The table that the exit of the shell leaves.
abbrev gone : Ptable
gone = after 1 0 boot refl refl (omega arith) (omega arith)

exit_lem_example :
    (exit 1 0 boot ≡ some ((slot boot 1).ofile, (slot boot 1).cwd, gone))
    × ((slot gone 1).state ≡ zombie)
    × ((j : ℕ)
        → j < nproc
        → ◌≢◌ {A = ℕ} 1 j
        → (is_child 1 (slot gone j) ≡ false)
          × (is_child 1 (slot boot j) ≡ true → (slot gone j).parent ≡ some 0)
          × (is_child 1 (slot boot j) ≡ false → (slot gone j).parent ≡ (slot boot j).parent))
    × ((j : ℕ)
        → j < nproc
        → ◌≢◌ {A = ℕ} 1 j
        → (slot boot 1).parent ≡ some j
        → (slot boot j).state ≡ sleeping
        → (slot boot j).chan ≡ of_proc j
        → (slot gone j).state ≡ runnable)
    × ((k : ℕ)
        → k < nproc
        → ◌≢◌ {A = ℕ} 1 k
        → 0 < nproc
        → is_dead_child 1 (slot boot k) ≡ true
        → (slot boot 0).state ≡ sleeping
        → (slot boot 0).chan ≡ of_proc 0
        → (slot gone 0).state ≡ runnable)
exit_lem_example = exit_lem 1 0 boot refl refl (omega arith) (omega arith)
