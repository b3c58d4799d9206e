-- ===== src/Spinlock/Tests.antt =====
-- The locks at work.
use ut_os.Base.{ℕ, ◌≡◌, refl, true, false, some, arith}
use ut_os.Spinlock.{Cpu, Spinlock, initlock, ok}
use ut_os.Spinlock.Nesting.{IsMasked, IsRestored, push_times, pop_times, pop_times-push_times}
use ut_os.Spinlock.Exclusion.{
  Cpus, move_to, outside, spinning, won, inside, Reach, start, later, begin, win, mark,
  mutual_exclusion,
}

abbrev cpu : Cpu
cpu = record { ncli = 0; intena = false; interrupts = true }

cpu-IsMasked : IsMasked cpu
cpu-IsMasked = ground arith

pop_times-push_times_example :
    (k : Cpu) × (pop_times 3 (push_times 3 cpu) ≡ ok k) × IsRestored cpu k
pop_times-push_times_example = pop_times-push_times 3 cpu cpu-IsMasked (omega arith)

abbrev taken : Spinlock
taken = record { locked = true; cpu = some 1 }

abbrev begun : Cpus
begun = record { lock = initlock; at = move_to (λ _. outside) 1 spinning }

abbrev won_by : Cpus
won_by = record { lock = record initlock { locked = true }; at = move_to begun.at 1 won }

abbrev inside_1 : Cpus
inside_1 = record {
  lock = record initlock { locked = true; cpu = some 1 };
  at = move_to won_by.at 1 inside;
}

inside_1-Reach : Reach inside_1
unfolding initlock
inside_1-Reach = later (later (later start (begin 1 refl refl)) (win 1 refl refl)) (mark 1 refl)

mutual_exclusion_example : ◌≡◌ {A = ℕ} 1 1
mutual_exclusion_example = mutual_exclusion {s = inside_1} inside_1-Reach 1 1 refl refl
