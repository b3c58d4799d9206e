-- ===== src/Proc/Sched/Tests.antt =====
-- The queues and the scheduler at work.
use ut_os.Base.{ℕ, ◌≡◌, refl, ℕ-cases, false, Option, some, List, ◌∷◌, get_or, arith}
use ut_os.Proc.{Proc, Ptable, runnable, running, blank_proc}
use ut_os.Proc.Tests.{blank-unused, blanks, blanks-slot, table_of}
use ut_os.Proc.Queues.{is_ready, sjf_scheduler}
use ut_os.Proc.Queues.Aging.{age_times, age_times-queue}
use ut_os.Proc.Queues.Jobs.{HasBounds}
use ut_os.Proc.Queues.Drawing.{IsShortest, sjf_scheduler_lem}
use ut_os.Proc.Sched.{Queues, sweep}
use ut_os.Proc.Sched.Pass.{IsSane, PassEnd, sweep_lem}
use ut_os.Proc.Sched.Slice.{at_least_one-le, IsOn, GaveUp, ticks_left, turn, turn_lem}

-- A process that has waited in queue 2.
abbrev pub waiter : Proc
waiter = record blank_proc {
  pid = 1;
  state = runnable;
  queue = 2;
  wait_time = 300;
  arrival = 40;
  confidence = 50;
  burst_time = 2;
}

age_times-queue_example : (age_times 1300 (λ n. n) waiter).queue ≡ 0
age_times-queue_example =
    age_times-queue 1300 (λ n. n) waiter refl (omega arith) (omega arith) (omega arith)

blank-ready : (q : ℕ) → is_ready q blank_proc ≡ false
blank-ready q = ground (arith, blank-unused)

-- No blank slot is ready.
blanks-ready : (q j : ℕ) → is_ready q (get_or blanks j blank_proc) ≡ false
blanks-ready q j = rw (blanks-slot j) (blank-ready q)

abbrev jobs : List Proc
jobs = record waiter { queue = 1; confidence = 100 } ∷ blanks

jobs-HasBounds : HasBounds jobs
jobs-HasBounds = ℕ-cases _ (λ lt rd. omega arith) (λ j lt rd. absurd (cc (rd, blanks-ready 1 j)))

sjf_scheduler_lem_example :
    (c : Option ℕ) × (seed' : ℕ) × (sjf_scheduler 1000000001 9 jobs 1 ≡ some (c, seed'))
    × IsShortest jobs c
sjf_scheduler_lem_example = sjf_scheduler_lem jobs 1000000001 9 1 (omega arith) jobs-HasBounds

waiter-IsSane : IsSane (waiter ∷ blanks)
waiter-IsSane = record {
  full = refl;
  bursts = ℕ-cases _ (λ lt rd. ground arith) (λ j lt rd. absurd (cc (rd, blanks-ready 1 j)));
  arrivals = ℕ-cases _ (λ lt rd. refl) (λ j lt rd. absurd (cc (rd, blanks-ready 2 j)));
}

abbrev idle : Queues
idle = record { current_queue = 2; runs = 0; index = 0; seed = 1 }

sweep_lem_example :
    (r : Option ℕ) × (t' : Ptable) × (c' : Queues) × (sweep 3 1000000001 9 (table_of waiter) idle
      ≡ some (r, t', c'))
    × PassEnd (table_of waiter) r t' c'
sweep_lem_example =
    sweep_lem 1000000001 9 (table_of waiter) waiter-IsSane (omega arith) idle refl refl

abbrev runner : Proc
runner = record waiter { state = running; queue = 0; consecutive_runs = 2 }

runner-IsOn : IsOn 0 (table_of runner) idle
runner-IsOn = record {
  free = refl;
  within = omega arith;
  can_run = record { queue = omega arith; small = λ z. omega arith; short = omega arith };
}

turn_lem_example :
    (t' : Ptable) × (c' : Queues) × (turn 3 0 (table_of runner) idle
      ≡ some (ticks_left 0 (table_of runner) idle, t', c'))
    × GaveUp 0 (table_of runner) t'
turn_lem_example =
    turn_lem 0 3 (table_of runner) idle runner-IsOn
      (at_least_one-le _ 3 (omega arith) (omega arith))
