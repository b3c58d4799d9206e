-- ===== src/Reentrant.antt =====
-- sleeplock.c and reentrantlock.c. `me` is the pid of the calling process. A call that would go to
-- sleep returns nothing; it is made again when the process wakes up. The spin lock inside a sleep lock
-- makes each call on it one step. No lock makes the stores to a reentrant lock one step: the functions
-- run them one after another, `Reentrant.Exclusion` interleaves those of many processes.
pub mod Laws
pub mod Exclusion
pub mod Exclusive
pub mod Tests
use ut_os.Base.{
  ℕ, ◌+◌, ◌==◌, wrap, sub_word, Bool, true, false, ◌&&◌, not, if◌then◌else◌, Option, none, some,
}

pub record Sleeplock : Type 0 where
  pub locked : Bool
  pub pid : ℕ

-- `recursion` is the pattern of an int.
pub record Reentrantlock : Type 0 where
  pub locked : Bool
  pub lk : Sleeplock
  pub pid : ℕ
  pub recursion : ℕ

unfoldable pub initsleeplock : Sleeplock
initsleeplock = record { locked = false; pid = 0 }

-- `none` is `sleep(lk, &lk->lk)`.
unfoldable pub acquiresleep : ℕ → Sleeplock → Option Sleeplock
acquiresleep me lk = if lk.locked then none else some (record { locked = true; pid = me })

-- Anybody may call it; the sleepers on the lock are woken.
unfoldable pub releasesleep : Sleeplock → Sleeplock
releasesleep lk = record { locked = false; pid = 0 }

unfoldable pub holdingsleep : ℕ → Sleeplock → Bool
holdingsleep me lk = lk.locked && lk.pid == me

pub initreentrantlock : Reentrantlock
unfolding initsleeplock
initreentrantlock = record { locked = false; lk = initsleeplock; pid = 0; recursion = 0 }

abbrev pub holdingreentrant : ℕ → Reentrantlock → Bool
holdingreentrant me lk = lk.locked && lk.pid == me

-- The stores of acquirereentrant behind acquiresleep, in their order. No lock covers them.
abbrev pub set_locked : Reentrantlock → Reentrantlock
set_locked lk = record lk { locked = true }

abbrev pub set_pid : ℕ → Reentrantlock → Reentrantlock
set_pid me lk = record lk { pid = me }

abbrev pub deepen : Reentrantlock → Reentrantlock
deepen lk = record lk { recursion = wrap (lk.recursion + 1) }

-- `none` is a call that goes to sleep in acquiresleep. The stores follow one another here; other
-- processes come between them in `Reentrant.Exclusion`.
pub acquirereentrant : ℕ → Reentrantlock → Option Reentrantlock
unfolding acquiresleep
acquirereentrant me lk =
    if not (holdingreentrant me lk)
    then (elim (acquiresleep me lk.lk) [
      | none ↦ none
      | some inner ↦ some (deepen (set_pid me (set_locked (record lk { lk = inner }))))
    ])
    else some (deepen lk)

-- The stores of releasereentrant, in their order.
abbrev pub lower : Reentrantlock → Reentrantlock
lower lk = record lk { recursion = sub_word lk.recursion 1 }

abbrev pub clear_locked : Reentrantlock → Reentrantlock
clear_locked lk = record lk { locked = false }

abbrev pub clear_pid : Reentrantlock → Reentrantlock
clear_pid lk = record lk { pid = 0 }

abbrev pub drop : Reentrantlock → Reentrantlock
drop lk = record lk { lk = releasesleep lk.lk }

pub releasereentrant : ℕ → Reentrantlock → Reentrantlock
unfolding releasesleep
releasereentrant me lk =
    if not (holdingreentrant me lk)
    then lk
    else (let low = lower lk in
        if low.recursion == 0 then drop (clear_pid (clear_locked low)) else low)
