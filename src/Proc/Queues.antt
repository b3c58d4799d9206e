-- ===== src/Proc/Queues.antt =====
-- The three run queues of proc.c: aging, and the choice of the next process in each. The caller of a
-- choice holds the lock of the table. An index of -1 is none.
pub mod Aging
pub mod RoundRobin
pub mod Arrival
pub mod Jobs
pub mod Rounds
pub mod Drawing
use ut_os.Base.{
  ℕ, zero, suc, ◌+◌, ◌*◌, ◌/◌, ◌%◌, ◌==◌, ltb, Bool, true, false, ◌&&◌, not, if◌then◌else◌, Option,
  none, some, List, [], ◌∷◌, ◌++◌, map, length, get_or, wrap, sub_word, lt_int, le_int,
}
use ut_os.Proc.{
  Proc, Ptable, ProcState, runnable, is_state, blank_proc, nproc, acquire_ptable, release_ptable,
}

-- MAX_WAIT_TIME of param.h.
abbrev pub max_wait_time : ℕ
max_wait_time = 800

-- A runnable process waits one tick more, and moves up a queue when it has waited long enough.
abbrev pub age_one : ℕ → Proc → Proc
age_one ticks p =
    if is_state p.state runnable
    then (let w = wrap (p.wait_time + 1) in
        if le_int max_wait_time w && not (p.queue == 0)
        then record p { queue = sub_word p.queue 1; arrival = ticks; wait_time = 0 }
        else record p { wait_time = w })
    else p

pub aging : ℕ → Ptable → Option Ptable
aging ticks t = elim (acquire_ptable t) [
  | none ↦ none
  | some t1 ↦ some (release_ptable (record t1 { procs = map (age_one ticks) t1.procs }))
]

-- The negation of the test by which a choice skips a slot.
abbrev pub is_ready : ℕ → Proc → Bool
is_ready queue p = is_state p.state runnable && p.queue == queue

-- `n` rounds of the loop of `_RR_scheduler`, with its static index.
pub rr_scan : List Proc → ℕ → ℕ → Option ℕ × ℕ
rr_scan ps zero index = (none, index)
rr_scan ps (suc n) index =
    let i = (index + 1) % nproc in
    let rest = rr_scan ps n i in
    if not (is_ready 0 (get_or ps i blank_proc)) then rest else (some i, i)

pub rr_scheduler : List Proc → ℕ → Option ℕ × ℕ
unfolding rr_scan
rr_scheduler ps index = rr_scan ps nproc index

-- 1e9.
abbrev pub billion : ℕ
billion = 1000000000

-- The loop of `_FCFS_scheduler` from slot `i` on.
pub fcfs_from : List Proc → ℕ → ℕ → Option ℕ → Option ℕ
fcfs_from [] i min_val min_idx = min_idx
fcfs_from (p ∷ ps) i min_val min_idx =
    let take = is_ready 2 p && lt_int p.arrival min_val in
    fcfs_from ps (i + 1) (if take then p.arrival else min_val) (if take then some i else min_idx)

pub fcfs_scheduler : List Proc → Option ℕ
unfolding fcfs_from
fcfs_scheduler ps = fcfs_from ps 0 billion none

-- What one round of `_SJF_scheduler` has found: `idle` is its `flag`.
pub record Round : Type 0 where
  pub new_min : ℕ
  pub picked : List ℕ
  pub idle : Bool

-- The body of the inner loop at slot `i`. The order of the picked slots is that of `p_idx`.
abbrev pub consider : ℕ → ℕ → Proc → Round → Round
consider min_val i p r =
    if not (is_ready 1 p)
    then r
    else (if lt_int min_val p.burst_time
        then record r {
          new_min = if lt_int r.new_min p.burst_time then r.new_min else p.burst_time;
          idle = false;
        }
        else (if min_val == p.burst_time
            then record r { picked = r.picked ++ (i ∷ []); idle = false }
            else r))

-- The inner loop from slot `i` on.
pub sjf_round : ℕ → List Proc → ℕ → Round → Round
sjf_round min_val [] i r = r
sjf_round min_val (p ∷ ps) i r = sjf_round min_val ps (i + 1) (consider min_val i p r)

-- The outer loop, with fuel; no result means that the fuel ran out.
pub sjf_rounds : ℕ → List Proc → ℕ → List ℕ → Option (List ℕ)
sjf_rounds zero ps min_val picked = none
sjf_rounds (suc f) ps min_val picked = elim (ltb (length picked) nproc) [
  | false ↦ some picked
  | true ↦
      (let r =
          sjf_round min_val ps 0 (record { new_min = billion; picked = picked; idle = true }) in
        elim r.idle [ true ↦ some r.picked | false ↦ sjf_rounds f ps r.new_min r.picked ])
]

-- `rand`, and the step of the generator. An `unsigned long` has 32 bits.
abbrev pub rand : ℕ → ℕ
rand seed = seed / 65536 % 32768 % 100

abbrev pub next_seed : ℕ → ℕ → ℕ
next_seed ticks seed = wrap (wrap (seed + ticks) * 1103515243 + 12345)

-- The choice among the picked slots; `last` is the one before them.
pub sjf_choose : ℕ → List Proc → List ℕ → Option ℕ → ℕ → Option ℕ × ℕ
sjf_choose ticks ps [] last seed = (last, seed)
sjf_choose ticks ps (i ∷ is) last seed =
    let rest = sjf_choose ticks ps is (some i) (next_seed ticks seed) in
    if lt_int (rand seed) (get_or ps i blank_proc).confidence
    then (some i, next_seed ticks seed)
    else rest

pub sjf_scheduler : ℕ → ℕ → List Proc → ℕ → Option (Option ℕ × ℕ)
sjf_scheduler fuel ticks ps seed = elim (sjf_rounds fuel ps 0 []) [
  | none ↦ none
  | some picked ↦ some (sjf_choose ticks ps picked none seed)
]
