-- ===== src/Proc/Sched/Slice.antt =====
-- How long a process that is not stopped keeps its CPU.
use ut_os.Base.{
  ℕ, zero, suc, ◌+◌, ◌*◌, ◌-◌, ◌^◌, ◌≤◌, ◌<◌, ◌≡◌, ◌≢◌, refl, ap, inl, inr, Bool-cases, true, false,
  ◌==◌, ltb, ltb→lt, if◌then◌else◌, Option, none, some, length, wrap, le_int, length-modify, arith,
}
use ut_os.Proc.{Proc, Ptable, runnable, is_state}
use ut_os.Proc.Alloc.{slot, update_slot}
use ut_os.Proc.Alloc.Laws.{slot-update_slot}
use ut_os.Proc.Sched.{Queues, nqueue, time_slice, should_yield, count_run, step_back, yield}

abbrev min : ℕ → ℕ → ℕ
min a b = if ltb a b then a else b

-- The ticks for which the process may still run: what is left of the share of its queue and, in queue
-- 0, what is left of its own.
abbrev pub left : Proc → ℕ → ℕ
left p runs =
    if p.queue == 0
    then min (30 - runs) (5 - p.consecutive_runs)
    else (if p.queue == 1 then 20 - runs else 10 - runs)

-- The queue has a weight, and the counters are far from wrapping.
pub record CanRun (p : Proc) (runs : ℕ) : Type 0 where
  pub queue : p.queue < nqueue
  pub small : p.queue ≡ 0 → p.consecutive_runs + 1 < 2 ^ 31
  pub short : runs + 1 < 2 ^ 31

should_yield-last :
    (p : Proc) (runs : ℕ)
    → CanRun p runs
    → left p runs ≤ 1
    → (runs' : ℕ) × (should_yield (count_run p) runs ≡ some (true, runs'))
unfolding should_yield
should_yield-last p runs r h =
    elim (Bool-cases (le_int (time_slice * (3 - p.queue)) (wrap (runs + 1)))) [
      | inl e ↦ (0, ground (arith, r.queue))
      | inr e ↦ (wrap (runs + 1), ground arith)
    ]

should_yield-more :
    (p : Proc) (runs : ℕ)
    → CanRun p runs
    → 1 < left p runs
    → should_yield (count_run p) runs ≡ some (false, runs + 1)
unfolding should_yield
should_yield-more p runs r h = ground arith

-- The clock ticks until `yield` goes into the scheduler, at most `n`: their number, and the table and
-- the queues then.
pub turn : ℕ → ℕ → Ptable → Queues → Option (ℕ × Ptable × Queues)
turn zero me t c = none
turn (suc n) me t c = elim (yield me t c) [
  | none ↦ none
  | some (true, t', c') ↦ some (1, t', c')
  | some (false, t', c') ↦ elim (turn n me t' c') [
    | none ↦ none
    | some (k, t2, c2) ↦ some (suc k, t2, c2)
  ]
]

pub at_least_one : ℕ → ℕ
at_least_one a = if ltb 1 a then a else 1

at_least_one-pos : (a : ℕ) → 1 ≤ at_least_one a
unfolding at_least_one
at_least_one-pos a = ground arith

pub at_least_one-le : (a n : ℕ) → a ≤ n → 1 ≤ n → at_least_one a ≤ n
unfolding at_least_one
at_least_one-le a n h k = ground arith

le_of_ltb : (a b : ℕ) → ltb a b ≡ false → b ≤ a
le_of_ltb a b h = ground arith

at_least_one-minus : (a b : ℕ) → b ≡ a - 1 → 1 < a → suc (at_least_one b) ≡ at_least_one a
unfolding at_least_one
at_least_one-minus a b e h = ground arith

module _ (me : ℕ) where
  -- The process `me` runs, and the lock is free.
  pub record IsOn (t : Ptable) (c : Queues) : Type 0 where
    pub free : t.held ≡ false
    pub within : me < length t.procs
    pub can_run : CanRun (slot t me) c.runs

  -- The process has given up its CPU to the scheduler: the lock is held, and only its slot has changed.
  pub record GaveUp (t t' : Ptable) : Type 0 where
    pub held : t'.held ≡ true
    pub state : is_state (slot t' me).state runnable ≡ true
    pub consecutive_runs : (slot t' me).consecutive_runs ≡ 0
    pub queue : (slot t' me).queue ≡ (slot t me).queue
    pub others : (j : ℕ) → me ≢ j → slot t' j ≡ slot t j

  abbrev stepped : Ptable → Ptable
  stepped t = update_slot t me count_run

  slot-stepped : (t : Ptable) → me < length t.procs → slot (stepped t) me ≡ count_run (slot t me)
  slot-stepped t h = ground (arith, slot-update_slot t me me count_run)

  slot-last :
      (t : Ptable) (j : ℕ)
      → me < length t.procs
      → slot (update_slot (record (stepped t) { held = true }) me step_back) j
        ≡ (if me == j then step_back (count_run (slot t j)) else slot t j)
  slot-last t j h = ground (
    arith,
    slot-update_slot t me j count_run,
    slot-update_slot (record (stepped t) { held = true }) me j step_back,
    length-modify count_run t.procs me,
  )

  yield-last :
      (t : Ptable) (c : Queues)
      → IsOn t c
      → left (slot t me) c.runs ≤ 1
      → (t' : Ptable) × (c' : Queues) × (yield me t c ≡ some (true, t', c')) × GaveUp t t'
  unfolding yield
  yield-last t c o h =
      let (runs, e) = should_yield-last (slot t me) c.runs o.can_run h in
      (
        update_slot (record (stepped t) { held = true }) me step_back,
        record c { runs = runs },
        rw (o.free, yield, slot-stepped t o.within, e) refl,
        record {
          held = refl;
          state = ground (arith, slot-last t me o.within);
          consecutive_runs = ground (arith, slot-last t me o.within);
          queue = ground (arith, slot-last t me o.within);
          others = λ j ne. ground (arith, slot-last t j o.within);
        },
      )

  after : Ptable → Ptable
  after t = record (stepped t) { held = false }

  yield-more :
      (t : Ptable) (c : Queues)
      → IsOn t c
      → 1 < left (slot t me) c.runs
      → yield me t c ≡ some (false, after t, record c { runs = c.runs + 1 })
  unfolding yield after
  yield-more t c o h =
      let e = should_yield-more (slot t me) c.runs o.can_run h in
      rw (o.free, yield, slot-stepped t o.within, e) refl

  -- How many ticks the process keeps the CPU: what it has left, and one tick at least.
  abbrev pub ticks_left : Ptable → Queues → ℕ
  ticks_left t c = at_least_one (left (slot t me) c.runs)

  abbrev TurnEnd : ℕ → Ptable → Queues → Type 0
  TurnEnd n t c =
      (t' : Ptable) × (c' : Queues) × (turn n me t c ≡ some (ticks_left t c, t', c')) × GaveUp t t'

  turn-last :
      (n : ℕ) (t : Ptable) (c : Queues)
      → IsOn t c
      → left (slot t me) c.runs ≤ 1
      → TurnEnd (suc n) t c
  unfolding turn at_least_one
  turn-last n t c o h =
      let (t', c', e, g) = yield-last t c o h in (t', c', rw (turn, e) (ground arith), g)

  IsOn-after :
      (t : Ptable) (c : Queues)
      → IsOn t c
      → 1 < left (slot t me) c.runs
      → IsOn (after t) (record c { runs = c.runs + 1 })
        × (left (slot (after t) me) (c.runs + 1) ≡ left (slot t me) c.runs - 1)
  unfolding after
  IsOn-after t c o h =
      let e = slot-stepped t o.within in
      (
        record {
          free = refl;
          within = omega (arith, o.within, length-modify count_run t.procs me);
          can_run = record {
            queue = ground (arith, e, o.can_run.queue);
            small = λ z. ground (arith, e, o.can_run.small, h);
            short = ground (arith, e, h);
          };
        },
        ground (arith, e, h),
      )

  GaveUp-after : (t t' : Ptable) → me < length t.procs → GaveUp (after t) t' → GaveUp t t'
  unfolding after
  GaveUp-after t t' h g = record {
    held = g.held;
    state = g.state;
    consecutive_runs = g.consecutive_runs;
    queue = ground (arith, g.queue, slot-stepped t h);
    others = λ j ne. ground (arith, g.others j ne, slot-update_slot t me j count_run);
  }

  turn-more :
      (n : ℕ) (t : Ptable) (c : Queues)
      → IsOn t c
      → 1 < left (slot t me) c.runs
      → ticks_left t c ≤ suc n
      → ((t : Ptable) (c : Queues) → IsOn t c → ticks_left t c ≤ n → TurnEnd n t c)
      → TurnEnd (suc n) t c
  unfolding turn
  turn-more n t c o l h rest =
      let (o', e) = IsOn-after t c o l in
      let d : suc (ticks_left (after t) (record c { runs = c.runs + 1 })) ≡ ticks_left t c =
        at_least_one-minus _ _ e l in
      let (t', c', w, g) =
        rest (after t) (record c { runs = c.runs + 1 }) o' (omega (arith, d, h)) in
      (
        t',
        c',
        rw (turn, yield-more t c o l, w) (ap (λ k. some (k, t', c')) d),
        GaveUp-after t t' o.within g,
      )

  -- A process of queue 0, 1 or 2 that runs and does nothing else gives up its CPU for sure, and does
  -- so after exactly the ticks its queue has left of 30, 20 or 10 or, in queue 0, those it has left of
  -- 5 of its own, if these are fewer. It is then runnable with its own count at 0, the lock is held on
  -- the way into the scheduler, and no other slot has changed.
  pub turn_lem :
      (n : ℕ) (t : Ptable) (c : Queues)
      → IsOn t c
      → ticks_left t c ≤ n
      → (t' : Ptable) × (c' : Queues) × (turn n me t c ≡ some (ticks_left t c, t', c'))
        × GaveUp t t'
  turn_lem zero t c o h = absurd (ground (arith, at_least_one-pos (left (slot t me) c.runs)))
  turn_lem (suc n) t c o h = elim (Bool-cases (ltb 1 (left (slot t me) c.runs))) [
    | inr l ↦ turn-last n t c o (le_of_ltb 1 _ l)
    | inl l ↦ turn-more n t c o (ltb→lt 1 _ l) h (turn_lem n)
  ]
