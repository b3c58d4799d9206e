-- ===== src/Proc/Alloc/Laws.antt =====
-- The identity of processes: pids in use are different, and allocproc hands out new ones.
use ut_os.Base.{
  ℕ, ◌+◌, ◌^◌, ◌<◌, ◌≡◌, ◌≢◌, refl, ◌∙◌, inl, inr, ◌==◌, false, if◌then◌else◌, Option, none, some,
  length, find_index, IsFirst, find_index-some, length-modify, get_or-modify, ltb, ◌&&◌, eq→==,
  ne→==, Bool-cases, Option-cases, wrap, arith,
}
use ut_os.Kalloc.{Kmem, kalloc}
use ut_os.Proc.{Proc, Ptable, unused, embryo, is_state, nproc, blank_proc}
use ut_os.Proc.Alloc.{slot, update_slot, claim, set_up, give_up, allocproc}

-- The lock is free, the pids handed out are below `nextpid`, and no two slots have the same pid but 0.
pub record IsValid (t : Ptable) : Type 0 where
  pub unlocked : t.held ≡ false
  pub size : length t.procs ≡ nproc
  pub fresh : (i : ℕ) → (slot t i).pid < t.nextpid
  pub distinct : (i j : ℕ) → (slot t i).pid ≢ 0 → (slot t i).pid ≡ (slot t j).pid → i ≡ j

pub slot-update_slot :
    (t : Ptable) (i j : ℕ) (f : Proc → Proc)
    → slot (update_slot t i f) j
      ≡ (if i == j && ltb i (length t.procs) then f (slot t j) else slot t j)
slot-update_slot t i j f = get_or-modify f t.procs i j blank_proc

pid-update_slot :
    (t : Ptable) (i j : ℕ) (f : Proc → Proc)
    → ((p : Proc) → (f p).pid ≡ p.pid)
    → (slot (update_slot t i f) j).pid ≡ (slot t j).pid
pid-update_slot t i j f h = rw (slot-update_slot t i j f) (ground (arith, h (slot t j)))

-- An update of a slot that does not touch the pid.
pub update_slot-IsValid :
    (t : Ptable) (i : ℕ) (f : Proc → Proc)
    → ((p : Proc) → (f p).pid ≡ p.pid)
    → IsValid t
    → IsValid (update_slot t i f)
update_slot-IsValid t i f h v = record {
  unlocked = v.unlocked;
  size = length-modify f t.procs i ∙ v.size;
  fresh = λ j. rw (pid-update_slot t i j f h) (v.fresh j);
  distinct = λ j k. rw (pid-update_slot t i j f h, pid-update_slot t i k f h) (v.distinct j k);
}

-- What `p->pid = nextpid++` does at a slot.
claim-IsValid :
    (t : Ptable) (i : ℕ)
    → i < nproc
    → t.nextpid + 1 < 2 ^ 32
    → IsValid t
    → IsValid (record (update_slot t i (claim t.nextpid)) { nextpid = wrap (t.nextpid + 1) })
claim-IsValid t i lt w v = record {
  unlocked = v.unlocked;
  size = length-modify (claim t.nextpid) t.procs i ∙ v.size;
  fresh = λ j. ground (arith, slot-update_slot t i j (claim t.nextpid), v.fresh j);
  distinct = λ j k n e. ground (
    arith,
    slot-update_slot t i j (claim t.nextpid),
    slot-update_slot t i k (claim t.nextpid),
    v.fresh j,
    v.fresh k,
    v.distinct j k,
    v.size,
  );
}

-- What a call of allocproc did, by its result.
abbrev pub Allocated : Ptable → Option ℕ → Ptable → Type 0
Allocated t none t' = (j : ℕ) → (slot t' j).state ≡ (slot t j).state
Allocated t (some i) t' =
    IsFirst (λ p. is_state p.state unused) t.procs blank_proc i
    × ((slot t' i).pid ≡ t.nextpid)
    × ((slot t' i).state ≡ embryo)
    × ((j : ℕ) → i ≢ j → slot t' j ≡ slot t j)

-- The table behind the claim of slot `i`.
abbrev claimed : Ptable → ℕ → Ptable
claimed t i = record (update_slot t i (claim t.nextpid)) {
  held = false;
  nextpid = wrap (t.nextpid + 1);
}

module _ (ticks : ℕ) (t : Ptable) (k : Kmem) (v : IsValid t) where
  allocproc-full :
      find_index (λ p. is_state p.state unused) t.procs ≡ none
      → allocproc ticks t k ≡ some (none, record t { held = false }, k)
  unfolding allocproc
  allocproc-full h = ground (arith, v.unlocked)

  allocproc-some :
      (i : ℕ)
      → find_index (λ p. is_state p.state unused) t.procs ≡ some i
      → allocproc ticks t k ≡ (
          if (kalloc k).1 == 0
          then some (none, update_slot (claimed t i) i give_up, (kalloc k).0)
          else some (some i, update_slot (claimed t i) i (set_up (kalloc k).1 ticks), (kalloc k).0))
  unfolding allocproc
  allocproc-some i h = ground (arith, v.unlocked)

  claimed-IsValid : (i : ℕ) → i < nproc → t.nextpid + 1 < 2 ^ 32 → IsValid (claimed t i)
  claimed-IsValid i lt w =
      let c = claim-IsValid t i lt w v in
      record { unlocked = refl; size = c.size; fresh = c.fresh; distinct = c.distinct }

  Allocated-none :
      (i : ℕ)
      → IsFirst (λ p. is_state p.state unused) t.procs blank_proc i
      → Allocated t none (update_slot (claimed t i) i give_up)
  Allocated-none i f j = ground (
    arith,
    slot-update_slot (claimed t i) i j give_up,
    slot-update_slot t i j (claim t.nextpid),
    length-modify (claim t.nextpid) t.procs i,
    f.passes,
  )

  slot-claimed :
      (i page j : ℕ)
      → i < length t.procs
      → slot (update_slot (claimed t i) i (set_up page ticks)) j
        ≡ (if i == j then set_up page ticks (claim t.nextpid (slot t j)) else slot t j)
  slot-claimed i page j lt = ground (
    arith,
    slot-update_slot (claimed t i) i j (set_up page ticks),
    slot-update_slot t i j (claim t.nextpid),
    length-modify (claim t.nextpid) t.procs i,
  )

  Allocated-some :
      (i page : ℕ)
      → IsFirst (λ p. is_state p.state unused) t.procs blank_proc i
      → Allocated t (some i) (update_slot (claimed t i) i (set_up page ticks))
  Allocated-some i page f = (
    f,
    rw (slot-claimed i page i f.within, eq→== i i refl) refl,
    rw (slot-claimed i page i f.within, eq→== i i refl) refl,
    λ j h. rw (slot-claimed i page j f.within, ne→== i j h) refl,
  )

  allocproc-failed :
      (i : ℕ)
      → IsFirst (λ p. is_state p.state unused) t.procs blank_proc i
      → t.nextpid + 1 < 2 ^ 32
      → IsValid (update_slot (claimed t i) i give_up)
        × Allocated t none (update_slot (claimed t i) i give_up)
  allocproc-failed i f w = (
    update_slot-IsValid (claimed t i) i give_up (λ p. refl)
        (claimed-IsValid i (omega (arith, f.within, v.size)) w),
    Allocated-none i f,
  )

  -- allocproc returns from every valid table, and keeps it valid, so the pids in use stay different. It
  -- returns a slot or null. A slot is the first unused one, and becomes an embryo with the next pid,
  -- which no slot had, and no other slot changes. Null leaves the state of every slot as it was. The
  -- next pid is not about to wrap around.
  pub allocproc_lem :
      t.nextpid + 1 < 2 ^ 32
      → (r : Option ℕ) × (t' : Ptable) × (k' : Kmem) × (allocproc ticks t k ≡ some (r, t', k'))
        × IsValid t'
        × Allocated t r t'
  allocproc_lem w = elim (Option-cases (find_index (λ p. is_state p.state unused) t.procs)) [
    | inl h ↦ (
      none,
      record t { held = false },
      k,
      allocproc-full h,
      record { unlocked = refl; size = v.size; fresh = v.fresh; distinct = v.distinct },
      λ j. refl,
    )
    | inr (i, h) ↦
        (let f = find_index-some (λ p. is_state p.state unused) blank_proc t.procs i h in
          elim (Bool-cases ((kalloc k).1 == 0)) [
            | inl e ↦ (
              none,
              update_slot (claimed t i) i give_up,
              (kalloc k).0,
              allocproc-some i h ∙ rw e refl,
              (allocproc-failed i f w).0,
              (allocproc-failed i f w).1,
            )
            | inr e ↦ (
              some i,
              update_slot (claimed t i) i (set_up (kalloc k).1 ticks),
              (kalloc k).0,
              allocproc-some i h ∙ rw e refl,
              update_slot-IsValid (claimed t i) i (set_up (kalloc k).1 ticks) (λ p. refl)
                  (claimed-IsValid i (omega (arith, f.within, v.size)) w),
              Allocated-some i (kalloc k).1 f,
            )
          ])
  ]
