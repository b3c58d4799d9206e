-- ===== src/Proc/Queues/RoundRobin.antt =====
-- The round robin choice.
use ut_os.Base.{
  ℕ, zero, suc, ◌+◌, ◌*◌, ◌%◌, ◌<◌, ◌≡◌, refl, ap, sym, ◌∙◌, inl, inr, Bool, Bool-cases, true,
  false, Option, none, some, List, get_or, arith,
}
use ut_os.Proc.{Proc, blank_proc, nproc}
use ut_os.Proc.Queues.{is_ready, rr_scan, rr_scheduler}

-- The slot `d` places behind the one that follows `index`.
abbrev pub behind : ℕ → ℕ → ℕ
behind index d = (index + 1 + d) % nproc

behind-suc : (index d : ℕ) → behind ((index + 1) % nproc) d ≡ behind index (suc d)
behind-suc index d = omega arith

behind-zero : (index : ℕ) → (index + 1) % nproc ≡ behind index 0
behind-zero index = omega arith

module _ (ps : List Proc) where
  abbrev pub ready_at : ℕ → Bool
  ready_at i = is_ready 0 (get_or ps i blank_proc)

  -- None of the next `n` slots behind `index` is ready.
  abbrev pub NoneReady : ℕ → ℕ → Type 0
  NoneReady n index = (d : ℕ) → d < n → ready_at (behind index d) ≡ false

  -- How a scan of `n` slots ends: at the first ready one, or with none.
  abbrev pub Scanned : ℕ → ℕ → Option ℕ → ℕ → Type 0
  Scanned n index none index' = NoneReady n index
  Scanned n index (some i) index' =
      (d : ℕ) × (d < n)
      × (i ≡ behind index d)
      × (index' ≡ i)
      × (ready_at i ≡ true)
      × NoneReady d index

  NoneReady-suc :
      (n index : ℕ)
      → ready_at ((index + 1) % nproc) ≡ false
      → NoneReady n ((index + 1) % nproc)
      → NoneReady (suc n) index
  NoneReady-suc n index miss h zero lt = ap ready_at (sym (behind-zero index)) ∙ miss
  NoneReady-suc n index miss h (suc d) lt =
      ap ready_at (sym (behind-suc index d)) ∙ h d (omega arith)

  Scanned-miss :
      (n index : ℕ) (r : Option ℕ) (index' : ℕ)
      → ready_at ((index + 1) % nproc) ≡ false
      → Scanned n ((index + 1) % nproc) r index'
      → Scanned (suc n) index r index'
  Scanned-miss n index none index' miss s = NoneReady-suc n index miss s
  Scanned-miss n index (some i) index' miss (d, lt, e, e', hit, h) =
      (suc d, omega arith, e ∙ behind-suc index d, e', hit, NoneReady-suc d index miss h)

  rr_scan-Scanned : (n index : ℕ) → Scanned n index (rr_scan ps n index).0 (rr_scan ps n index).1
  unfolding rr_scan
  rr_scan-Scanned zero index = λ d h. absurd (omega arith)
  rr_scan-Scanned (suc n) index = elim (Bool-cases (ready_at ((index + 1) % nproc))) [
    | inl hit ↦ rw hit (0, omega arith, behind-zero index, refl, hit, λ d h. absurd (omega arith))
    | inr miss ↦ rw miss (
        Scanned-miss n index (rr_scan ps n ((index + 1) % nproc)).0
          (rr_scan ps n ((index + 1) % nproc)).1 miss (rr_scan-Scanned n ((index + 1) % nproc)))
  ]

  -- A scan of the whole table that finds nothing has seen every slot.
  NoneReady-all : (index : ℕ) → NoneReady nproc index → (i : ℕ) → i < nproc → ready_at i ≡ false
  NoneReady-all index h i lt =
      let d = (i + 63 * (index + 1)) % nproc in
      let e : behind index d ≡ i = omega arith in ap ready_at (sym e) ∙ h d (omega arith)

  Scanned-none :
      (index : ℕ) (r : Option ℕ) (index' : ℕ)
      → Scanned nproc index r index'
      → r ≡ none
      → (i : ℕ) → i < nproc
      → ready_at i ≡ false
  Scanned-none index none index' s e i lt = NoneReady-all index s i lt
  Scanned-none index (some j) index' s e i lt = absurd (cc e)

  -- The round robin choice is complete and fair: it takes the first runnable process of queue 0 in
  -- cyclic order behind the last one taken, remembers it, and finds nothing only if no slot of the
  -- table is runnable in queue 0.
  pub rr_scheduler_lem :
      (index : ℕ)
      → let (r, index') = rr_scheduler ps index in
        Scanned nproc index r index' × (r ≡ none → (i : ℕ) → i < nproc → ready_at i ≡ false)
  unfolding rr_scheduler
  rr_scheduler_lem index =
      let s = rr_scan-Scanned nproc index in
      (s, Scanned-none index (rr_scan ps nproc index).0 (rr_scan ps nproc index).1 s)
