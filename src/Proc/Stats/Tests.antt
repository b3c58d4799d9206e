-- ===== src/Proc/Stats/Tests.antt =====
-- The statistics calls at work.
use ut_os.Base.{ℕ, ◌<◌, ◌≡◌, inr, refl, ◌==◌, false, none, some, [], ◌∷◌, minus_one, arith}
use ut_os.Proc.{Proc, Ptable, runnable, Chan, blank_proc}
use ut_os.Proc.Alloc.{slot}
use ut_os.Proc.Table.{wakeup, kill}
use ut_os.Proc.Queues.{is_ready}
use ut_os.Proc.Stats.{set_queue, set_sjf_info}
use ut_os.Proc.Stats.Laws.{HasPid, set_sjf_info-keeps_lock, set_queue-strands}

-- A process that has made five calls.
abbrev caller : Proc
caller = record blank_proc { pid = 3; state = runnable; queue = 2; sc = 1 ∷ 3 ∷ 1 ∷ [] }

abbrev table : Ptable
table = record { held = false; procs = blank_proc ∷ caller ∷ []; nextpid = 4 }

blank-other : (blank_proc.pid == 3) ≡ false
unfolding blank_proc
blank-other = refl

caller-HasPid : HasPid 3 table 1
caller-HasPid = record {
  within = omega arith;
  passes = refl;
  earlier = λ j lt. ground (arith, blank-other);
}

set_sjf_info-keeps_lock_example :
    (t' : Ptable) × (set_sjf_info 100 5 60 table ≡ some (minus_one, t'))
    × ((pid' burst' confidence' : ℕ) → set_sjf_info pid' burst' confidence' t' ≡ none)
    × ((pid' : ℕ) → kill pid' t' ≡ none)
    × ((chan : Chan) → wakeup chan t' ≡ none)
set_sjf_info-keeps_lock_example =
    set_sjf_info-keeps_lock 100 table refl 5 60 (omega arith) (inr (omega arith))

set_queue-strands_example :
    (t' : Ptable) × (set_queue 3 3 50 table ≡ some (0, t'))
    × ((q : ℕ) → q < 3 → is_ready q (slot t' 1) ≡ false)
set_queue-strands_example =
    set_queue-strands 3 table refl 50 1 (omega arith) (omega arith) caller-HasPid (omega arith)
