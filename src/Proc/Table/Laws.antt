-- ===== src/Proc/Table/Laws.antt =====
-- What wakeup and kill change.
use ut_os.Base.{
  ℕ, ◌<◌, ◌≡◌, ◌≢◌, refl, ◌==◌, true, false, ◌&&◌, if◌then◌else◌, none, some, List, length, get_or,
  IsFirst, find_index_of, find_index-none_of, get_or-map, modify, get_or-modify, length-map, ne→==,
  minus_one, arith,
}
use ut_os.Proc.{Proc, Ptable, sleeping, runnable, is_state, Chan, is_chan, blank_proc}
use ut_os.Proc.Table.{wake_one, wakeup1, wakeup, mark_killed, kill}

-- wakeup1 acts on each slot by itself.
pub get_or-wakeup1 :
    (chan : Chan) (ps : List Proc) (j : ℕ)
    → get_or (wakeup1 chan ps) j blank_proc ≡ wake_one chan (get_or ps j blank_proc)
unfolding wakeup1 blank_proc
get_or-wakeup1 chan ps j = get_or-map (wake_one chan) ps j blank_proc

pub length-wakeup1 : (chan : Chan) (ps : List Proc) → length (wakeup1 chan ps) ≡ length ps
unfolding wakeup1
length-wakeup1 chan ps = length-map (wake_one chan) ps

abbrev slot : Ptable → ℕ → Proc
slot t i = get_or t.procs i blank_proc

-- wakeup, called with the lock free, makes runnable exactly the processes that sleep on the channel,
-- leaves every other slot and every other field as it was, and frees the lock.
pub wakeup_lem :
    (chan : Chan) (t : Ptable)
    → t.held ≡ false
    → (t' : Ptable) × (wakeup chan t ≡ some t')
      × (t'.held ≡ false)
      × ((j : ℕ)
          → slot t' j ≡ (
              if is_state (slot t j).state sleeping && is_chan (slot t j).chan chan
              then record (slot t j) { state = runnable }
              else slot t j))
unfolding wakeup
wakeup_lem chan t free = (
  record t { held = false; procs = wakeup1 chan t.procs },
  ground arith,
  refl,
  λ j. get_or-wakeup1 chan t.procs j,
)

-- kill, called with the lock free, always frees it. If a slot has the pid, the first such one is marked
-- as killed, and made runnable if it slept, nothing else changes, and the result is 0; if none has, the
-- table stays as it was and the result is -1.
pub kill_lem :
    (pid : ℕ) (t : Ptable)
    → t.held ≡ false
    → ((i : ℕ)
        → IsFirst (λ p. p.pid == pid) t.procs blank_proc i
        → (t' : Ptable) × (kill pid t ≡ some (0, t'))
          × (t'.held ≡ false)
          × ((slot t' i).killed ≡ true)
          × (is_state (slot t' i).state sleeping ≡ false)
          × ((j : ℕ) → i ≢ j → slot t' j ≡ slot t j))
      × (((j : ℕ) → j < length t.procs → ((slot t j).pid == pid) ≡ false)
          → kill pid t ≡ some (minus_one, record t { held = false }))
unfolding kill
kill_lem pid t free = (
  λ i f.
      (let found = find_index_of (λ p. p.pid == pid) blank_proc t.procs i f in
        (
          record t { held = false; procs = modify mark_killed t.procs i },
          ground arith,
          refl,
          ground (arith, get_or-modify mark_killed t.procs i i blank_proc, f.within),
          ground (arith, get_or-modify mark_killed t.procs i i blank_proc, f.within),
          λ j h. rw (get_or-modify mark_killed t.procs i j blank_proc, ne→== i j h) refl,
        )),
  λ h. (let found = find_index-none_of (λ p. p.pid == pid) blank_proc t.procs h in ground arith),
)

-- Nobody gets the lock of a table that is held.
pub kill-blocked : (pid : ℕ) (t : Ptable) → kill pid (record t { held = true }) ≡ none
unfolding kill
kill-blocked pid t = refl

pub wakeup-blocked : (chan : Chan) (t : Ptable) → wakeup chan (record t { held = true }) ≡ none
unfolding wakeup
wakeup-blocked chan t = refl
