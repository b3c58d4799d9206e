-- ===== src/Proc/Queues/Rounds.antt =====
-- The rounds of the shortest job first choice: what they pick, and that they end.
use ut_os.Base.{
  ℕ, zero, suc, ◌-◌, ◌≤◌, ◌<◌, ◌≡◌, refl, inl, inr, Bool-cases, true, false, none, some, List, [],
  ◌∷◌, length, ltb, arith,
}
use ut_os.Proc.{Proc, nproc}
use ut_os.Proc.Queues.{is_ready, billion, Round, sjf_round, sjf_rounds}
use ut_os.Proc.Queues.Jobs.{
  job, HasBounds, first, All, all_nil, all_cons, sjf_round-IsScanned, sjf_round-All,
}

-- Between two rounds: every pick is a ready process, and the first one has the least burst time of all.
pub record IsFound (ps : List Proc) (min : ℕ) (picked : List ℕ) : Type 0 where
  pub jobs : All (λ k. (k < length ps) × (is_ready 1 (job ps k) ≡ true)) picked
  pub best :
      (h : ℕ)
      → first picked ≡ some h
      → (j : ℕ) → j < length ps
      → is_ready 1 (job ps j) ≡ true
      → (job ps h).burst_time ≤ (job ps j).burst_time
  pub rest :
      first picked ≡ none
      → (j : ℕ) → j < length ps
      → is_ready 1 (job ps j) ≡ true
      → min ≤ (job ps j).burst_time

module _ (ps : List Proc) (small : HasBounds ps) where
  abbrev start : List ℕ → Round
  start picked = record { new_min = billion; picked = picked; idle = true }

  first-least :
      (min : ℕ) (picked : List ℕ) (h : ℕ)
      → first picked ≡ some h
      → All (λ k. min ≡ (job ps k).burst_time) picked
      → min ≡ (job ps h).burst_time
  first-least min [] h e a = absurd (cc e)
  first-least min (x ∷ xs) h e (all_cons q a) = ground (arith, q, e)

  sjf_round-best :
      (min : ℕ) (picked : List ℕ)
      → IsFound ps min picked
      → min ≤ billion
      → (h : ℕ) → first (sjf_round min ps 0 (start picked)).picked ≡ some h
      → (j : ℕ) → j < length ps
      → is_ready 1 (job ps j) ≡ true
      → (job ps h).burst_time ≤ (job ps j).burst_time
  sjf_round-best min [] f m h e j lt rd =
      let a =
        sjf_round-All {P = λ k. min ≡ (job ps k).burst_time} min ps 0 (start []) all_nil
          (λ i k lt' q rd' b. ground (arith, q, b)) in
      let b = first-least min _ h e a in omega (arith, f.rest refl j lt rd, b)
  sjf_round-best min (x ∷ xs) f m h e j lt rd =
      let s = sjf_round-IsScanned min ps 0 (start (x ∷ xs)) m small (omega arith) in
      ground (arith, f.best x refl j lt rd, s.kept x refl, e)

  sjf_round-IsFound :
      (min : ℕ) (picked : List ℕ)
      → min ≤ billion
      → IsFound ps min picked
      → let r = sjf_round min ps 0 (start picked) in IsFound ps r.new_min r.picked
  sjf_round-IsFound min picked m f =
      let s = sjf_round-IsScanned min ps 0 (start picked) m small (omega arith) in
      record {
        jobs =
            sjf_round-All min ps 0 (start picked) f.jobs
              (λ j k lt q rd b. ground (arith, lt, q, rd));
        best = sjf_round-best min picked f m;
        rest = λ e j lt rd.
            s.later j lt rd (omega (arith, f.rest (s.fresh_before e) j lt rd, s.fresh e j lt rd));
      }

  -- The picks the rounds end with.
  pub record IsPicked (picked : List ℕ) : Type 0 where
    pub jobs : All (λ k. (k < length ps) × (is_ready 1 (job ps k) ≡ true)) picked
    pub best :
        (h : ℕ)
        → first picked ≡ some h
        → (j : ℕ) → j < length ps
        → is_ready 1 (job ps j) ≡ true
        → (job ps h).burst_time ≤ (job ps j).burst_time
    pub none_left : first picked ≡ none → (j : ℕ) → j < length ps → is_ready 1 (job ps j) ≡ false

  IsPicked-full :
      (min : ℕ) (picked : List ℕ)
      → IsFound ps min picked
      → ltb (length picked) nproc ≡ false
      → IsPicked picked
  IsPicked-full min [] f e = absurd (ground arith)
  IsPicked-full min (x ∷ xs) f e = record {
    jobs = f.jobs;
    best = f.best;
    none_left = λ q. absurd (cc q);
  }

  IsPicked-idle :
      (min : ℕ) (picked : List ℕ)
      → min ≤ billion
      → IsFound ps min picked
      → let r = sjf_round min ps 0 (start picked) in r.idle ≡ true → IsPicked r.picked
  IsPicked-idle min picked m f q =
      let s = sjf_round-IsScanned min ps 0 (start picked) m small (omega arith) in
      let g = sjf_round-IsFound min picked m f in
      record {
        jobs = g.jobs;
        best = g.best;
        none_left = λ e j lt. elim (Bool-cases (is_ready 1 (job ps j))) [
          | inl rd ↦ absurd (omega (arith, f.rest (s.fresh_before e) j lt rd, s.quiet q j lt rd))
          | inr rd ↦ rd
        ];
      }

  -- The least burst time left grows with every round that is not idle, so the rounds end.
  pub sjf_rounds-IsPicked :
      (fuel min : ℕ) (picked : List ℕ)
      → min ≤ billion
      → billion - min < fuel
      → IsFound ps min picked
      → (picked' : List ℕ) × (sjf_rounds fuel ps min picked ≡ some picked') × IsPicked picked'
  unfolding sjf_rounds
  sjf_rounds-IsPicked zero min picked m h f = absurd (omega arith)
  sjf_rounds-IsPicked (suc fuel) min picked m h f =
      let r = sjf_round min ps 0 (start picked) in
      let s = sjf_round-IsScanned min ps 0 (start picked) m small (omega arith) in
      elim (Bool-cases (ltb (length picked) nproc)) [
        | inr e ↦ rw (e, sjf_rounds) (picked, refl, IsPicked-full min picked f e)
        | inl e ↦
            rw (e, sjf_rounds)
              (elim (Bool-cases r.idle) [
                | inl q ↦ rw q (r.picked, refl, IsPicked-idle min picked m f q)
                | inr q ↦ rw q (
                    sjf_rounds-IsPicked fuel r.new_min r.picked s.bound
                      (ground (arith, s.above, s.still, m, q)) (sjf_round-IsFound min picked m f))
              ])
      ]
