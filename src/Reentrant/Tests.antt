-- ===== src/Reentrant/Tests.antt =====
-- The reentrant lock at work.
use ut_os.Base.{ℕ, suc, ◌≡◌, ◌≢◌, refl, true, false, wrap, arith}
use ut_os.Reentrant.{
  Reentrantlock, initreentrantlock, initsleeplock, acquiresleep, holdingreentrant, set_locked,
  set_pid, deepen,
}
use ut_os.Reentrant.Exclusion.{
  Place, idle, asking, taken, marked, counting, Processes, move_to, Reach, start, later, owns,
  read_unlocked, take, mark, name, count,
}
use ut_os.Reentrant.Exclusive.{reentrant_exclusion}

abbrev go : Reentrantlock → Place → Processes → Processes
go lk p s = record { lock = lk; at = move_to s.at 3 p }

-- The process 3 makes one call of acquirereentrant.
abbrev fresh : Processes
fresh = record { lock = initreentrantlock; at = λ _. idle 0 }

abbrev asked : Processes
asked = go initreentrantlock asking fresh

abbrev got : Processes
got =
    go (record { locked = false; lk = record { locked = true; pid = 3 }; pid = 0; recursion = 0 })
      taken asked

abbrev flagged : Processes
flagged = go (set_locked got.lock) marked got

abbrev named : Processes
named = go (set_pid 3 flagged.lock) (counting 0) flagged

abbrev held : Processes
held = go (deepen named.lock) (idle 1) named

held-Reach : Reach held
unfolding initreentrantlock initsleeplock acquiresleep
held-Reach =
    let n : ◌≢◌ {A = ℕ} 3 0 = omega arith in
    later {s = named} 3
      (later {s = flagged} 3
        (later {s = got} 3
          (later {s = asked} 3 (later {s = fresh} 3 start n refl (read_unlocked 0 refl)) n refl
            (take refl))
          n refl mark)
        n refl name)
      n refl (count 0)

reentrant_exclusion_example :
    ((i j : ℕ) → owns (held.at i) ≡ true → owns (held.at j) ≡ true → i ≡ j)
    × ((i : ℕ) → owns (held.at i) ≡ true → (held.lock.lk.locked ≡ true) × (held.lock.lk.pid ≡ i))
    × ((i d : ℕ)
        → i ≢ 0
        → held.at i ≡ idle (suc d)
        → (holdingreentrant i held.lock ≡ true) × (held.lock.recursion ≡ wrap (suc d)))
    × ((i : ℕ) → i ≢ 0 → owns (held.at i) ≡ false → holdingreentrant i held.lock ≡ false)
reentrant_exclusion_example = reentrant_exclusion {s = held} held-Reach
