-- ===== src/Spinlock/Exclusion.antt =====
-- Many CPUs at one spin lock: the accesses of acquire and release to the lock, interleaved in any
-- order. Interrupts are off in between, so a CPU runs nothing else meanwhile.
use ut_os.Base.{ℕ, ◌≡◌, refl, Bool, true, false, ◌==◌, if◌then◌else◌, none, some, arith}
use ut_os.Spinlock.{Spinlock, initlock, held_by, is_cpu}

-- Where a CPU stands: outside, in the `xchg` loop, behind a successful `xchg`, in the critical
-- section, and in `release` behind `lk->cpu = 0`.
pub data Place : Type 0 where
  outside spinning won inside clearing : Place

abbrev pub move_to : (ℕ → Place) → ℕ → Place → ℕ → Place
move_to at i p j = if i == j then p else at j

pub record Cpus : Type 0 where
  pub lock : Spinlock
  pub at : ℕ → Place

-- A panic of `holding` in `acquire` or `release` is the absence of the step.
pub data Step (s : Cpus) : Cpus → Type 0 where
  begin :
      (i : ℕ)
      → s.at i ≡ outside
      → held_by i s.lock ≡ false
      → Step s (record s { at = move_to s.at i spinning })
  spin : (i : ℕ) → s.at i ≡ spinning → s.lock.locked ≡ true → Step s s
  win :
      (i : ℕ)
      → s.at i ≡ spinning
      → s.lock.locked ≡ false
      → Step s (record { lock = record (s.lock) { locked = true }; at = move_to s.at i won })
  mark :
      (i : ℕ)
      → s.at i ≡ won
      → Step s (record { lock = record (s.lock) { cpu = some i }; at = move_to s.at i inside })
  unmark :
      (i : ℕ)
      → s.at i ≡ inside
      → held_by i s.lock ≡ true
      → Step s (record { lock = record (s.lock) { cpu = none }; at = move_to s.at i clearing })
  drop :
      (i : ℕ)
      → s.at i ≡ clearing
      → Step s (record { lock = record (s.lock) { locked = false }; at = move_to s.at i outside })

pub data Reach : Cpus → Type 0 where
  start : Reach (record { lock = initlock; at = λ _. outside })
  later : {s t : Cpus} → Reach s → Step s t → Reach t

-- The CPU has the lock word.
abbrev pub owns : Place → Bool
owns outside = false
owns spinning = false
owns _ = true

abbrev pub is_inside : Place → Bool
is_inside inside = true
is_inside _ = false

pub record IsExclusive (s : Cpus) : Type 0 where
  pub unique : (i j : ℕ) → owns (s.at i) ≡ true → owns (s.at j) ≡ true → i ≡ j
  pub taken : (i : ℕ) → owns (s.at i) ≡ true → s.lock.locked ≡ true
  pub named : (i : ℕ) → is_cpu i s.lock.cpu ≡ is_inside (s.at i)

Step-unique :
    {s t : Cpus}
    → IsExclusive s
    → Step s t
    → (i j : ℕ) → owns (t.at i) ≡ true
    → owns (t.at j) ≡ true
    → i ≡ j
Step-unique v (begin k a h) i j p q = ground (arith, v.unique i j)
Step-unique v (spin k a l) i j p q = v.unique i j p q
Step-unique v (win k a l) i j p q = ground (arith, v.unique i j, v.taken i, v.taken j)
Step-unique v (mark k a) i j p q = ground (arith, v.unique i j, v.unique k j, v.unique i k)
Step-unique v (unmark k a h) i j p q = ground (arith, v.unique i j, v.unique k j, v.unique i k)
Step-unique v (drop k a) i j p q = ground (arith, v.unique i j)

Step-taken :
    {s t : Cpus} → IsExclusive s → Step s t → (i : ℕ) → owns (t.at i) ≡ true → t.lock.locked ≡ true
Step-taken v (begin k a h) i p = ground (arith, v.taken i)
Step-taken v (spin k a l) i p = l
Step-taken v (win k a l) i p = refl
Step-taken v (mark k a) i p = ground (arith, v.taken k)
Step-taken v (unmark k a h) i p = ground (arith, v.taken k)
Step-taken v (drop k a) i p = ground (arith, v.unique i k)

Step-named :
    {s t : Cpus} → IsExclusive s → Step s t → (i : ℕ) → is_cpu i t.lock.cpu ≡ is_inside (t.at i)
Step-named v (begin k a h) i = ground (arith, v.named i)
Step-named v (spin k a l) i = v.named i
Step-named v (win k a l) i = ground (arith, v.named i, v.taken i)
Step-named v (mark k a) i = ground (arith, v.named i, v.unique i k)
Step-named v (unmark k a h) i = ground (arith, v.named i, v.unique i k)
Step-named v (drop k a) i = ground (arith, v.named i, v.unique i k)

pub Reach-IsExclusive : {s : Cpus} → Reach s → IsExclusive s
unfolding initlock
Reach-IsExclusive start = record { unique = λ i j p q. cc; taken = λ i p. cc; named = λ i. refl }
Reach-IsExclusive (later r st) =
    let v = Reach-IsExclusive r in
    record { unique = Step-unique v st; taken = Step-taken v st; named = Step-named v st }

-- Mutual exclusion: however the CPUs interleave, two are never both between the `xchg` that gets the
-- lock and the store that frees it.
pub mutual_exclusion :
    {s : Cpus} → Reach s → (i j : ℕ) → owns (s.at i) ≡ true → owns (s.at j) ≡ true → i ≡ j
mutual_exclusion r i j = (Reach-IsExclusive r).unique i j

-- The test of `holding`, read without the lock by any CPU at any moment, is true exactly on the CPU
-- that is in the critical section: acquire panics only on a recursive call, and release never does for
-- the holder.
pub held_by-exact : {s : Cpus} → Reach s → (i : ℕ) → held_by i s.lock ≡ is_inside (s.at i)
held_by-exact r i = let v = Reach-IsExclusive r in ground (arith, v.named i, v.taken i)
