-- ===== src/Proc/Exit/Laws.antt =====
-- Orphans go to init, and nobody who waits for the death of a process sleeps through it.
use ut_os.Base.{
  ℕ, zero, suc, ◌+◌, ◌<◌, ◌≤◌, ◌≡◌, ◌≢◌, refl, ap, sym, subst, ◌∙◌, ◌==◌, ltb, leb, Bool, true,
  false, ◌&&◌, ◌||◌, if◌then◌else◌, some, List, length, get_or, modify, get_or-modify,
  get_or-modify_ne, get_or-modify_self, lt→ltb, le→leb, length-modify, arith,
}
use native.Mathlib.Decide.{ℕ_discrete}
use ut_os.Proc.{Proc, Ptable, sleeping, runnable, zombie, of_proc, chan_of, blank_proc, nproc}
use ut_os.Proc.Table.{wake_one, wakeup1}
use ut_os.Proc.Table.Laws.{get_or-wakeup1, length-wakeup1}
use ut_os.Proc.Alloc.{slot, update_slot}
use ut_os.Proc.Wait.{is_child}
use ut_os.Proc.Wait.Laws.{is_dead_child}
use ut_os.Proc.Exit.{adopt, abandon_one, abandon, close_all, die, exit}

module _ (me init : ℕ) where
  -- A zombie child stands at one of the `n` slots from `i` on.
  any_dead : ℕ → ℕ → List Proc → Bool
  any_dead zero i ps = false
  any_dead (suc n) i ps = is_dead_child me (get_or ps i blank_proc) || any_dead n (i + 1) ps

  any_dead-ext :
      (n i : ℕ) (ps qs : List Proc)
      → ((j : ℕ)
          → i ≤ j
          → is_dead_child me (get_or ps j blank_proc) ≡ is_dead_child me (get_or qs j blank_proc))
      → any_dead n i ps ≡ any_dead n i qs
  unfolding any_dead
  any_dead-ext zero i ps qs h = refl
  any_dead-ext (suc n) i ps qs h =
      rw (h i (omega arith), any_dead-ext n (i + 1) ps qs (λ j p. h j (omega arith))) refl

  -- What the loop makes of one slot: `woken` is whether init was woken, `met` whether the loop came by.
  abbrev passed : Bool → Bool → Proc → Proc
  passed woken met p =
      let p' = if met && is_child me p then adopt init p else p in
      if woken then wake_one (of_proc init) p' else p'

  abandon_one-slot :
      (i j : ℕ) (ps : List Proc)
      → get_or (abandon_one me init i ps) j blank_proc
        ≡ passed
            (is_dead_child me (get_or ps i blank_proc))
            (i == j && ltb i (length ps))
            (get_or ps j blank_proc)
  abandon_one-slot i j ps = ground (
    arith,
    get_or-wakeup1 (of_proc init) (modify (adopt init) ps i) j,
    get_or-modify (adopt init) ps i j blank_proc,
  )

  is_dead_child-abandon_one :
      (i j : ℕ) (ps : List Proc)
      → i ≢ j
      → is_dead_child me (get_or (abandon_one me init i ps) j blank_proc)
        ≡ is_dead_child me (get_or ps j blank_proc)
  is_dead_child-abandon_one i j ps h = rw (abandon_one-slot i j ps) (ground arith)

  length-abandon_one : (i : ℕ) (ps : List Proc) → length (abandon_one me init i ps) ≡ length ps
  length-abandon_one i ps = ground (
    arith,
    length-wakeup1 (of_proc init) (modify (adopt init) ps i),
    length-modify (adopt init) ps i,
  )

  passed-passed :
      (w1 w2 m1 m2 : Bool) (p : Proc)
      → (m1 && m2) ≡ false
      → passed w2 m2 (passed w1 m1 p) ≡ passed (w1 || w2) (m1 || m2) p
  passed-passed w1 w2 m1 m2 p h = ground arith

  range-suc :
      (n i j l : ℕ)
      → ((i == j && ltb i l) && (leb (i + 1) j && ltb j (i + 1 + n) && ltb j l) ≡ false)
        × ((i == j && ltb i l) || (leb (i + 1) j && ltb j (i + 1 + n) && ltb j l)
            ≡ (leb i j && ltb j (i + suc n) && ltb j l))
  range-suc n i j l = ground arith

  -- The loop as one pass over the slots.
  abandon-slot :
      (n i j : ℕ) (ps : List Proc)
      → get_or (abandon me init n i ps) j blank_proc
        ≡ passed
            (any_dead n i ps)
            (leb i j && ltb j (i + n) && ltb j (length ps))
            (get_or ps j blank_proc)
  unfolding abandon any_dead
  abandon-slot zero i j ps = ground arith
  abandon-slot (suc n) i j ps =
      let ps1 = abandon_one me init i ps in
      let l = length ps in
      abandon-slot n (i + 1) j ps1
      ∙ rw
          (
            length-abandon_one i ps,
            any_dead-ext n (i + 1) ps1 ps (λ k h. is_dead_child-abandon_one i k ps (omega arith)),
            abandon_one-slot i j ps,
            passed-passed (is_dead_child me (get_or ps i blank_proc)) (any_dead n (i + 1) ps)
                (i == j && ltb i l) (leb (i + 1) j && ltb j (i + 1 + n) && ltb j l)
                (get_or ps j blank_proc) (range-suc n i j l).0,
            (range-suc n i j l).1,
          )
          refl

  length-abandon : (n i : ℕ) (ps : List Proc) → length (abandon me init n i ps) ≡ length ps
  unfolding abandon
  length-abandon zero i ps = refl
  length-abandon (suc n) i ps =
      length-abandon n (i + 1) (abandon_one me init i ps) ∙ length-abandon_one i ps

  any_dead-true :
      (n i k : ℕ) (ps : List Proc)
      → i ≤ k
      → k < i + n
      → is_dead_child me (get_or ps k blank_proc) ≡ true
      → any_dead n i ps ≡ true
  unfolding any_dead
  any_dead-true zero i k ps a b h = absurd (omega arith)
  any_dead-true (suc n) i k ps a b h = elim (ℕ_discrete i k) [
    | yes e ↦
        (let h' = subst (λ x. is_dead_child me (get_or ps x blank_proc) ≡ true) (sym e) h in
          rw h' refl)
    | no ne ↦ ground (arith, any_dead-true n (i + 1) k ps (omega arith) (omega arith) h)
  ]

  module _ (t : Ptable) (free : t.held ≡ false) (size : length t.procs ≡ nproc) (other : me ≢ init)
      (here : me < nproc) where
    -- The table at the start of the loop, and the one that exit leaves.
    abbrev pub before_loop : List Proc
    before_loop = wakeup1 (chan_of (slot t me).parent) (modify close_all t.procs me)

    abbrev pub after : Ptable
    after = record t { held = true; procs = modify die (abandon me init nproc 0 before_loop) me }

    parent_kept : (slot (update_slot t me close_all) me).parent ≡ (slot t me).parent
    parent_kept = rw (get_or-modify close_all t.procs me me blank_proc) (ground arith)

    exit-returns : exit me init t ≡ some ((slot t me).ofile, (slot t me).cwd, after)
    unfolding exit
    exit-returns = ground (arith, parent_kept, free)

    -- The first wakeup, of those who wait for the parent to be told.
    abbrev told : ℕ → Proc
    told j =
        wake_one (chan_of (slot t me).parent)
          (if me == j && ltb me nproc then close_all (slot t j) else slot t j)

    before_loop-slot : (j : ℕ) → get_or before_loop j blank_proc ≡ told j
    before_loop-slot j =
        get_or-wakeup1 (chan_of (slot t me).parent) (modify close_all t.procs me) j
        ∙ rw (get_or-modify close_all t.procs me j blank_proc, size) refl

    length-before_loop : length before_loop ≡ nproc
    length-before_loop =
        length-wakeup1 (chan_of (slot t me).parent) (modify close_all t.procs me)
        ∙ length-modify close_all t.procs me
        ∙ size

    abbrev woken : Bool
    woken = any_dead nproc 0 before_loop

    after-slot : (j : ℕ) → j < nproc → me ≢ j → slot after j ≡ passed woken true (told j)
    after-slot j lt ne =
        get_or-modify_ne die (abandon me init nproc 0 before_loop) me j blank_proc ne
        ∙ abandon-slot nproc 0 j before_loop
        ∙ rw (length-before_loop, before_loop-slot j, lt→ltb j nproc lt, le→leb 0 j (omega arith))
            refl

    after_self : (slot after me).state ≡ zombie
    after_self =
        rw
          (get_or-modify_self die (abandon me init nproc 0 before_loop) me blank_proc
            (omega (arith, here, length-abandon nproc 0 before_loop, length-before_loop)))
          refl

    after-parent :
        (j : ℕ)
        → j < nproc
        → me ≢ j
        → (is_child me (slot after j) ≡ false)
          × (is_child me (slot t j) ≡ true → (slot after j).parent ≡ some init)
          × (is_child me (slot t j) ≡ false → (slot after j).parent ≡ (slot t j).parent)
    after-parent j lt ne = rw (after-slot j lt ne) (ground (arith, ne, other))

    after-waiter :
        (j : ℕ)
        → j < nproc
        → me ≢ j
        → (slot t me).parent ≡ some j
        → (slot t j).state ≡ sleeping
        → (slot t j).chan ≡ of_proc j
        → (slot after j).state ≡ runnable
    after-waiter j lt ne p st c = rw (after-slot j lt ne) (ground (arith, ne))

    dead-told : (k : ℕ) → me ≢ k → is_dead_child me (told k) ≡ is_dead_child me (slot t k)
    dead-told k ne = ground (arith, ne)

    after-init :
        (k : ℕ)
        → k < nproc
        → me ≢ k
        → init < nproc
        → is_dead_child me (slot t k) ≡ true
        → (slot t init).state ≡ sleeping
        → (slot t init).chan ≡ of_proc init
        → (slot after init).state ≡ runnable
    after-init k lt ne lti d st c =
        let w =
          any_dead-true nproc 0 k before_loop (omega arith) (omega arith)
            (ap (is_dead_child me) (before_loop-slot k) ∙ dead-told k ne ∙ d) in
        rw (after-slot init lti other, w) (ground (arith, other))

    -- exit of any process but init switches into the scheduler with the lock held and the process a
    -- zombie, and gives back the files and the directory that it had open. In every other slot no child
    -- of the process is left: each passes to init, and all other processes keep their parent. A parent
    -- that slept in wait is runnable, and so is an init that did, if a zombie was among the children.
    pub exit_lem :
        (exit me init t ≡ some ((slot t me).ofile, (slot t me).cwd, after))
        × ((slot after me).state ≡ zombie)
        × ((j : ℕ)
            → j < nproc
            → me ≢ j
            → (is_child me (slot after j) ≡ false)
              × (is_child me (slot t j) ≡ true → (slot after j).parent ≡ some init)
              × (is_child me (slot t j) ≡ false → (slot after j).parent ≡ (slot t j).parent))
        × ((j : ℕ)
            → j < nproc
            → me ≢ j
            → (slot t me).parent ≡ some j
            → (slot t j).state ≡ sleeping
            → (slot t j).chan ≡ of_proc j
            → (slot after j).state ≡ runnable)
        × ((k : ℕ)
            → k < nproc
            → me ≢ k
            → init < nproc
            → is_dead_child me (slot t k) ≡ true
            → (slot t init).state ≡ sleeping
            → (slot t init).chan ≡ of_proc init
            → (slot after init).state ≡ runnable)
    exit_lem = (exit-returns, after_self, after-parent, after-waiter, after-init)
