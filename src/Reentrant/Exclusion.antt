-- ===== src/Reentrant/Exclusion.antt =====
-- Many processes at one reentrant lock: the reads and stores of acquirereentrant and releasereentrant,
-- interleaved in any order. acquiresleep and releasesleep hold the spin lock of the sleep lock and are
-- one step each. A process has a pid other than 0.
use ut_os.Base.{ℕ, suc, ◌-◌, ◌≡◌, ◌≢◌, Bool, true, false, ◌==◌, not, if◌then◌else◌, some}
use ut_os.Reentrant.{
  Reentrantlock, initreentrantlock, acquiresleep, set_locked, set_pid, deepen, lower, clear_locked,
  clear_pid, drop,
}

-- Where a process stands, with the number of its calls of acquirereentrant that are not undone:
-- outside of a call, between the two reads of holdingreentrant (in releasereentrant or not), in
-- acquiresleep, behind it and behind each store that follows, before `recursion++` and `--recursion`,
-- and behind the stores of the last release.
pub data Place : Type 0 where
  idle : (depth : ℕ) → Place
  testing : (releases : Bool) → (depth : ℕ) → Place
  asking taken marked : Place
  counting lowering : (depth : ℕ) → Place
  emptied cleared unnamed : Place

-- One access of the process `me`.
pub data Access (me : ℕ) (lk : Reentrantlock) : Place → Reentrantlock → Place → Type 0 where
  read_locked :
      (releases : Bool) (d : ℕ) → lk.locked ≡ true → Access me lk (idle d) lk (testing releases d)
  read_unlocked : (d : ℕ) → lk.locked ≡ false → Access me lk (idle d) lk asking
  ignored : (d : ℕ) → lk.locked ≡ false → Access me lk (idle d) lk (idle d)
  own : (d : ℕ) → lk.pid ≡ me → Access me lk (testing false d) lk (counting d)
  own_last : (d : ℕ) → lk.pid ≡ me → Access me lk (testing true d) lk (lowering d)
  other : (d : ℕ) → lk.pid ≢ me → Access me lk (testing false d) lk asking
  other_last : (d : ℕ) → lk.pid ≢ me → Access me lk (testing true d) lk (idle d)
  take :
      {inner : _}
      → acquiresleep me lk.lk ≡ some inner
      → Access me lk asking (record lk { lk = inner }) taken
  mark : Access me lk taken (set_locked lk) marked
  name : Access me lk marked (set_pid me lk) (counting 0)
  count : (d : ℕ) → Access me lk (counting d) (deepen lk) (idle (suc d))
  lower_last : (d : ℕ) → (lower lk).recursion ≡ 0 → Access me lk (lowering d) (lower lk) emptied
  lower_one :
      (d : ℕ) → (lower lk).recursion ≢ 0 → Access me lk (lowering d) (lower lk) (idle (d - 1))
  clear : Access me lk emptied (clear_locked lk) cleared
  unname : Access me lk cleared (clear_pid lk) unnamed
  leave : Access me lk unnamed (drop lk) (idle 0)

pub record Processes : Type 0 where
  pub lock : Reentrantlock
  pub at : ℕ → Place

abbrev pub move_to : (ℕ → Place) → ℕ → Place → ℕ → Place
move_to at i p j = if i == j then p else at j

-- The states that any accesses by any processes lead to.
pub data Reach : Processes → Type 0 where
  start : Reach (record { lock = initreentrantlock; at = λ _. idle 0 })
  later :
      {s : Processes} {lk : Reentrantlock} {p q : Place} (i : ℕ)
      → Reach s
      → i ≢ 0
      → s.at i ≡ q
      → Access i s.lock q lk p
      → Reach (record { lock = lk; at = move_to s.at i p })

-- The process is between the return of acquiresleep and the call of releasesleep.
abbrev pub owns : Place → Bool
owns (idle d) = not (d == 0)
owns (testing r d) = not (d == 0)
owns asking = false
owns _ = true

-- The lock names the process: its own test of holdingreentrant reads its pid.
abbrev pub is_named : Place → Bool
is_named taken = false
is_named marked = false
is_named unnamed = false
is_named p = owns p

-- The field `locked` is set for it.
abbrev pub is_marked : Place → Bool
is_marked taken = false
is_marked cleared = false
is_marked unnamed = false
is_marked p = owns p

-- The depth that the process has made of the lock.
abbrev pub depth_at : Place → ℕ
depth_at (idle d) = d
depth_at (testing r d) = d
depth_at (counting d) = d
depth_at (lowering d) = d
depth_at _ = 0

-- A process undoes only what it has done.
abbrev pub is_deep : Place → Bool
is_deep (lowering d) = not (d == 0)
is_deep _ = true
