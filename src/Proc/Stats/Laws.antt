-- ===== src/Proc/Stats/Laws.antt =====
-- What set_queue and set_sjf_info do on each branch.
use ut_os.Base.{
  ℕ, ◌^◌, ◌≤◌, ◌<◌, ◌≡◌, ◌⊎◌, refl, ◌∙◌, inl, inr, ◌==◌, true, false, if◌then◌else◌, none, some,
  length, IsFirst, find_index_of, find_index-none_of, minus_one, arith,
}
use ut_os.Proc.{Proc, Ptable, Chan, blank_proc, nproc}
use ut_os.Proc.Alloc.{slot, update_slot}
use ut_os.Proc.Alloc.Laws.{slot-update_slot}
use ut_os.Proc.Table.{wakeup, kill}
use ut_os.Proc.Table.Laws.{kill-blocked, wakeup-blocked}
use ut_os.Proc.Queues.{is_ready}
use ut_os.Proc.Stats.{set_sjf_info, put_queue, set_queue}

abbrev pub HasPid : ℕ → Ptable → ℕ → Type 0
HasPid pid t i = IsFirst (λ p. p.pid == pid) t.procs blank_proc i

abbrev pub NoPid : ℕ → Ptable → Type 0
NoPid pid t = (j : ℕ) → j < length t.procs → ((slot t j).pid == pid) ≡ false

abbrev set_slot : Ptable → ℕ → (Proc → Proc) → Ptable
set_slot t i f = record (update_slot t i f) { held = false }

module _ (pid : ℕ) (t : Ptable) (free : t.held ≡ false) where
  -- set_queue, called with the lock free on a pid between 1 and 63 and a queue between 0 and 3, leaves
  -- the lock free. The first slot with the pid gets the queue, and the time as its arrival, and
  -- nothing else changes; if the process is in that queue already, the call fails and changes nothing.
  pub set_queue_lem :
      (queue ticks i : ℕ)
      → 0 < pid
      → pid < nproc
      → queue ≤ 3
      → HasPid pid t i
      → set_queue pid queue ticks t
        ≡ some (
            if (slot t i).queue == queue
            then (minus_one, t)
            else (0, set_slot t i (put_queue queue ticks)))
  unfolding set_queue
  set_queue_lem queue ticks i a b c f =
      let e = find_index_of (λ p. p.pid == pid) blank_proc t.procs i f in ground arith

  -- set_queue fails and changes nothing where pid or queue is out of its range or no slot has the pid.
  pub set_queue-fails :
      (queue ticks : ℕ)
      → pid < 2 ^ 32
      → queue < 2 ^ 32
      → ((pid ≡ 0) ⊎ (nproc ≤ pid)) ⊎ ((3 < queue) ⊎ NoPid pid t)
      → set_queue pid queue ticks t ≡ some (minus_one, t)
  unfolding set_queue
  set_queue-fails queue ticks a b (inl bad) = ground arith
  set_queue-fails queue ticks a b (inr (inl bad)) = ground arith
  set_queue-fails queue ticks a b (inr (inr h)) =
      let e = find_index-none_of (λ p. p.pid == pid) blank_proc t.procs h in ground arith

  -- set_sjf_info, called with the lock free on a pid that is not between 1 and 63, fails and leaves the
  -- lock held, so that no later call of it, of kill or of wakeup gets the lock.
  pub set_sjf_info-keeps_lock :
      (burst confidence : ℕ)
      → pid < 2 ^ 32
      → (pid ≡ 0) ⊎ (nproc ≤ pid)
      → (t' : Ptable) × (set_sjf_info pid burst confidence t ≡ some (minus_one, t'))
        × ((pid' burst' confidence' : ℕ) → set_sjf_info pid' burst' confidence' t' ≡ none)
        × ((pid' : ℕ) → kill pid' t' ≡ none)
        × ((chan : Chan) → wakeup chan t' ≡ none)
  unfolding set_sjf_info
  set_sjf_info-keeps_lock burst confidence a bad = (
    record t { held = true },
    ground arith,
    λ pid' burst' confidence'. refl,
    λ pid'. kill-blocked pid' t,
    λ chan. wakeup-blocked chan t,
  )

  -- A process that set_queue puts into queue 3 is ready in none of the queues that the scheduler looks
  -- at.
  pub set_queue-strands :
      (ticks i : ℕ)
      → 0 < pid
      → pid < nproc
      → HasPid pid t i
      → (slot t i).queue < 3
      → (t' : Ptable) × (set_queue pid 3 ticks t ≡ some (0, t'))
        × ((q : ℕ) → q < 3 → is_ready q (slot t' i) ≡ false)
  set_queue-strands ticks i a b f lt = (
    set_slot t i (put_queue 3 ticks),
    set_queue_lem 3 ticks i a b (omega arith) f ∙ ground arith,
    λ q h. ground (arith, slot-update_slot t i i (put_queue 3 ticks), f.within),
  )
