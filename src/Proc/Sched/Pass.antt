-- ===== src/Proc/Sched/Pass.antt =====
-- One pass of the scheduler over its queues.
use ut_os.Base.{
  ℕ, zero, suc, ◌+◌, ◌%◌, ◌<◌, ◌≡◌, ◌⊎◌, refl, ap, subst, ◌∙◌, inl, inr, Bool-cases, Option-cases,
  true, false, ◌==◌, Option, none, some, List, length, get_or, lt_int, arith,
}
use ut_os.Proc.{Proc, Ptable, blank_proc, nproc}
use ut_os.Proc.Alloc.{slot, update_slot}
use ut_os.Proc.Queues.{is_ready, billion, rr_scheduler, fcfs_scheduler}
use ut_os.Proc.Queues.Jobs.{HasBounds}
use ut_os.Proc.Queues.Drawing.{sjf_scheduler_lem}
use ut_os.Proc.Queues.Arrival.{fcfs_scheduler_lem}
use ut_os.Proc.Queues.RoundRobin.{Scanned, rr_scheduler_lem}
use ut_os.Proc.Sched.{Queues, nqueue, next_queue, choose, dispatch, sweep}

-- What a choice in the queue `q` promises.
record IsChoice (q : ℕ) (ps : List Proc) (r : Option ℕ) : Type 0 where
  ready : (k : ℕ) → r ≡ some k → (k < length ps) × (is_ready q (get_or ps k blank_proc) ≡ true)
  complete : r ≡ none → (j : ℕ) → j < length ps → is_ready q (get_or ps j blank_proc) ≡ false

-- A full table, burst times below 1e9 in queue 1, and arrivals before tick 1e9 in queue 2.
pub record IsSane (ps : List Proc) : Type 0 where
  pub full : length ps ≡ nproc
  pub bursts : HasBounds ps
  pub arrivals :
      (j : ℕ)
      → j < length ps
      → is_ready 2 (get_or ps j blank_proc) ≡ true
      → lt_int (get_or ps j blank_proc).arrival billion ≡ true

fcfs-IsChoice : (ps : List Proc) → IsSane ps → IsChoice 2 ps (fcfs_scheduler ps)
fcfs-IsChoice ps s = elim (fcfs_scheduler_lem ps) [
  | inl (h, e) ↦ record {
    ready = λ k q. absurd (cc (e, q));
    complete = λ q j lt. ground (arith, h j lt, s.arrivals j lt);
  }
  | inr (k, b, e) ↦ record {
    ready = λ i q. ground (arith, b.within, b.ready, e, q);
    complete = λ q. absurd (cc (e, q));
  }
]

Scanned-ready :
    (ps : List Proc) (index k index' : ℕ)
    → Scanned ps nproc index (some k) index'
    → length ps ≡ nproc
    → (k < length ps) × (is_ready 0 (get_or ps k blank_proc) ≡ true)
Scanned-ready ps index k index' (d, lt, e, e', hit, h) full = (omega arith, hit)

rr-IsChoice : (ps : List Proc) (index : ℕ) → IsSane ps → IsChoice 0 ps (rr_scheduler ps index).0
rr-IsChoice ps index s =
    let (r, i') = rr_scheduler ps index in
    let h = rr_scheduler_lem ps index in
    record {
      ready = λ k q.
          Scanned-ready ps index k i' (subst (λ x. Scanned ps nproc index x i') q h.0) s.full;
      complete = λ q j lt. h.1 q j (omega (arith, s.full));
    }

-- The choice in each of the three queues.
choose-IsChoice :
    (fuel ticks q : ℕ) (ps : List Proc) (c : Queues)
    → IsSane ps
    → billion < fuel
    → c.current_queue ≡ q
    → q < nqueue
    → (r : Option ℕ) × (c' : Queues) × (choose fuel ticks ps c ≡ some (r, c'))
      × IsChoice q ps r
      × (c'.current_queue ≡ q)
      × (c'.runs ≡ c.runs)
unfolding choose
choose-IsChoice fuel ticks zero ps c s f e lt = (
  (rr_scheduler ps c.index).0,
  record c { index = (rr_scheduler ps c.index).1 },
  rw e refl,
  rr-IsChoice ps c.index s,
  e,
  refl,
)
choose-IsChoice fuel ticks (suc zero) ps c s f e lt =
    let (r, seed, w, h) = sjf_scheduler_lem ps fuel ticks c.seed f s.bursts in
    (
      r,
      record c { seed = seed },
      simp (e, w),
      record { ready = h.ready; complete = h.complete },
      e,
      refl,
    )
choose-IsChoice fuel ticks (suc (suc zero)) ps c s f e lt =
    (fcfs_scheduler ps, c, rw e refl, fcfs-IsChoice ps s, e, refl)
choose-IsChoice fuel ticks (suc (suc (suc q))) ps c s f e lt = absurd (omega arith)

-- No process of the queues below `q` is ready.
abbrev pub NoneBelow : ℕ → Ptable → Type 0
NoneBelow q t = (q' : ℕ) → q' < q → (j : ℕ) → j < length t.procs → is_ready q' (slot t j) ≡ false

-- How a pass ends: with the dispatch of a process of the first queue that has a ready one, or, where no
-- queue has one, with the table as it was.
abbrev pub PassEnd : Ptable → Option ℕ → Ptable → Queues → Type 0
PassEnd t none t' c' = (t' ≡ t) × (c'.current_queue ≡ 2) × (c'.runs ≡ 0) × NoneBelow nqueue t
PassEnd t (some i) t' c' =
    (t' ≡ update_slot t i dispatch)
    × (i < length t.procs)
    × (c'.current_queue < nqueue)
    × (is_ready c'.current_queue (slot t i) ≡ true)
    × NoneBelow c'.current_queue t

NoneBelow-suc :
    (q : ℕ) (t : Ptable)
    → NoneBelow q t
    → ((j : ℕ) → j < length t.procs → is_ready q (slot t j) ≡ false)
    → NoneBelow (suc q) t
NoneBelow-suc q t h g q' lt j w = elim (Bool-cases (q' == q)) [
  | inl e ↦ subst (λ x. is_ready x (slot t j) ≡ false) (ground arith) (g j w)
  | inr e ↦ h q' (ground arith) j w
]

module _ (fuel ticks : ℕ) (t : Ptable) (sane : IsSane t.procs) (enough : billion < fuel) where
  next_queue-current :
      (c : Queues) (q : ℕ)
      → c.runs ≡ 0
      → (c.current_queue + 1) % nqueue ≡ q
      → ((next_queue c).current_queue ≡ q) × ((next_queue c).runs ≡ 0)
  next_queue-current c q z m = ground arith

  -- From the queue `q` on, with those below it already seen empty.
  abbrev Ends : ℕ → Queues → Type 0
  Ends n c =
      (r : Option ℕ) × (t' : Ptable) × (c' : Queues) × (sweep n fuel ticks t c ≡ some (r, t', c'))
      × PassEnd t r t' c'

  sweep-hit :
      (n q i : ℕ) (c c' : Queues)
      → choose fuel ticks t.procs (next_queue c) ≡ some (some i, c')
      → IsChoice q t.procs (some i)
      → c'.current_queue ≡ q
      → q < nqueue
      → NoneBelow q t
      → Ends (suc n) c
  unfolding sweep
  sweep-hit n q i c c' w ch e lt h =
      let (a, b) = ch.ready i refl in
      (
        some i,
        update_slot t i dispatch,
        c',
        rw (w, sweep) refl,
        (refl, a, omega arith, rw e b, rw e h),
      )

  sweep-last :
      (n : ℕ) (c c' : Queues)
      → choose fuel ticks t.procs (next_queue c) ≡ some (none, c')
      → c'.current_queue ≡ 2
      → NoneBelow nqueue t
      → Ends (suc n) c
  unfolding sweep
  sweep-last n c c' w e h =
      let two : (c'.current_queue == 2) ≡ true = ground arith in
      (none, t, record c' { runs = 0 }, rw (w, sweep, two) refl, (refl, e, refl, h))

  sweep-next :
      (n : ℕ) (c c' : Queues)
      → choose fuel ticks t.procs (next_queue c) ≡ some (none, c')
      → c'.current_queue < 2
      → Ends n (record c' { runs = 0 })
      → Ends (suc n) c
  unfolding sweep
  sweep-next n c c' w lt (r, t', c2, w', p) =
      let two : (c'.current_queue == 2) ≡ false = ground arith in
      (r, t', c2, rw (w, sweep, two) w', p)

  -- The queue `q` is looked at: the pass ends in it, or goes on behind it.
  sweep-look :
      (n q : ℕ) (c : Queues)
      → q < nqueue
      → c.runs ≡ 0
      → (c.current_queue + 1) % nqueue ≡ q
      → NoneBelow q t
      → Ends (suc n) c
        ⊎ ((c' : Queues) × (choose fuel ticks t.procs (next_queue c) ≡ some (none, c'))
            × (c'.current_queue ≡ q)
            × NoneBelow (suc q) t)
  sweep-look n q c lt z m h =
      let (cur, _) = next_queue-current c q z m in
      let (r, c', w, ch, e1, e2) =
        choose-IsChoice fuel ticks q t.procs (next_queue c) sane enough cur lt in
      elim (Option-cases r) [
        | inr (i, k) ↦ inl (
            sweep-hit n q i c c' (w ∙ ap (λ x. some (x, c')) k) (subst (IsChoice q t.procs) k ch) e1
              lt h)
        | inl k ↦ inr (c', w ∙ ap (λ x. some (x, c')) k, e1, NoneBelow-suc q t h (ch.complete k))
      ]

  sweep-PassEnd :
      (n q : ℕ) (c : Queues)
      → q + n ≡ 2
      → c.runs ≡ 0
      → (c.current_queue + 1) % nqueue ≡ q
      → NoneBelow q t
      → Ends (suc n) c
  sweep-PassEnd zero q c e z m h = elim (sweep-look zero q c (omega arith) z m h) [
    | inl d ↦ d
    | inr (c', w, e1, g) ↦
        (let two : suc q ≡ nqueue = omega arith in
          sweep-last zero c c' w (omega arith) (subst (λ x. NoneBelow x t) two g))
  ]
  sweep-PassEnd (suc n) q c e z m h = elim (sweep-look (suc n) q c (omega arith) z m h) [
    | inl d ↦ d
    | inr (c', w, e1, g) ↦
        sweep-next (suc n) c c' w (omega arith)
          (sweep-PassEnd n (suc q) (record c' { runs = 0 }) (omega arith) refl (omega arith) g)
  ]

  -- With a full table, burst times from 0 (not negative) to below 1e9 in queue 1 and arrivals before
  -- tick 1e9 in queue 2, a pass of the scheduler that starts at queue 2 with no runs made, as after the
  -- end of the pass before, needs three rounds at most. It dispatches one ready process, of the first
  -- of the three queues that has one: its wait time becomes 0 and its state running. It ends without a
  -- dispatch, and with the table unchanged, only if none of the three queues has a ready process.
  pub sweep_lem : (c : Queues) → c.current_queue ≡ 2 → c.runs ≡ 0 → Ends 3 c
  sweep_lem c cur z = sweep-PassEnd 2 0 c refl z (omega arith) (λ q lt. absurd (omega arith))
