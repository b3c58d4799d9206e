-- ===== src/Proc/Wait/Laws.antt =====
-- What wait finds, and what it leaves.
use ut_os.Base.{
  ℕ, zero, suc, ◌<◌, ◌≡◌, ◌≢◌, refl, ◌∙◌, Bool, true, false, ◌&&◌, if◌then◌else◌, none, some, List,
  [], ◌∷◌, length, get_or, find_index, IsFirst, find_index_of, find_index-none_of, ne→==, arith,
}
use ut_os.Proc.{Proc, Ptable, unused, zombie, is_state, of_proc, blank_proc}
use ut_os.Proc.Alloc.{slot, update_slot}
use ut_os.Proc.Alloc.Laws.{slot-update_slot}
use ut_os.Proc.Wait.{is_child, scan_children, reap, reaped, childless, asleep, fall_asleep, wait}

abbrev pub is_dead_child : ℕ → Proc → Bool
is_dead_child me p = is_child me p && is_state p.state zombie

-- The one loop does two searches.
scan_children-found :
    (me : ℕ) (ps : List Proc) → (scan_children me ps).1 ≡ find_index (is_dead_child me) ps
unfolding scan_children find_index
scan_children-found me [] = refl
scan_children-found me (p ∷ ps) = ground (arith, scan_children-found me ps)

scan_children-kids :
    (me : ℕ) (ps : List Proc) (j : ℕ)
    → j < length ps
    → is_child me (get_or ps j blank_proc) ≡ true
    → (scan_children me ps).0 ≡ true
unfolding scan_children
scan_children-kids me [] j lt h = absurd (omega arith)
scan_children-kids me (p ∷ ps) zero lt h = ground arith
scan_children-kids me (p ∷ ps) (suc j) lt h =
    ground (arith, scan_children-kids me ps j (omega arith) h)

scan_children-none :
    (me : ℕ) (ps : List Proc)
    → ((j : ℕ) → j < length ps → is_child me (get_or ps j blank_proc) ≡ false)
    → (scan_children me ps).0 ≡ false
unfolding scan_children
scan_children-none me [] h = refl
scan_children-none me (p ∷ ps) h =
    ground (arith, h 0 (omega arith), scan_children-none me ps (λ j lt. h (suc j) (omega arith)))

-- No child of `me` that the table has is a zombie.
abbrev pub NoneDead : ℕ → Ptable → Type 0
NoneDead me t = (j : ℕ) → j < length t.procs → is_dead_child me (slot t j) ≡ false

module _ (ticks me : ℕ) (t : Ptable) (free : t.held ≡ false) where
  wait-reaps :
      (i : ℕ)
      → IsFirst (is_dead_child me) t.procs blank_proc i
      → wait ticks me t
        ≡ some (
          reaped (slot t i).pid (slot t i).kstack (slot t i).pgdir,
          record (update_slot t i (reap ticks)) { held = false },
        )
  unfolding wait
  wait-reaps i f =
      let found =
        scan_children-found me t.procs ∙ find_index_of (is_dead_child me) blank_proc t.procs i f in
      ground arith

  wait-childless :
      ((j : ℕ) → j < length t.procs → is_child me (slot t j) ≡ false)
      → wait ticks me t ≡ some (childless, record t { held = false })
  unfolding wait
  wait-childless h =
      let none_found =
        scan_children-found me t.procs
        ∙ find_index-none_of (is_dead_child me) blank_proc t.procs (λ j lt. rw (h j lt) refl) in
      ground (arith, scan_children-none me t.procs h)

  wait-sleeps :
      (j : ℕ)
      → j < length t.procs
      → is_child me (slot t j) ≡ true
      → NoneDead me t
      → wait ticks me t ≡ (
          if (slot t me).killed
          then some (childless, record t { held = false })
          else some (asleep, record (update_slot t me (fall_asleep (of_proc me))) { held = true }))
  unfolding wait
  wait-sleeps j lt c h =
      let none_found =
        scan_children-found me t.procs
        ∙ find_index-none_of (is_dead_child me) blank_proc t.procs h in
      ground (arith, scan_children-kids me t.procs j lt c)

  -- wait, called with the lock free, ends in one of three ways. With a zombie child it returns the
  -- pid, stack and page table of the first one, and only that slot changes: it becomes unused, with no
  -- pid and no parent. With no child it fails. With children but no zombie among them it fails if the
  -- caller is killed, and otherwise sleeps on the caller's own channel; nothing else changes.
  pub wait_lem :
      ((i : ℕ)
        → IsFirst (is_dead_child me) t.procs blank_proc i
        → (t' : Ptable) × (wait ticks me t
            ≡ some (reaped (slot t i).pid (slot t i).kstack (slot t i).pgdir, t'))
          × ((slot t' i).state ≡ unused)
          × ((slot t' i).pid ≡ 0)
          × ((slot t' i).parent ≡ none)
          × ((k : ℕ) → i ≢ k → slot t' k ≡ slot t k)
          × (t'.held ≡ false))
      × (((j : ℕ) → j < length t.procs → is_child me (slot t j) ≡ false)
          → wait ticks me t ≡ some (childless, record t { held = false }))
      × ((j : ℕ)
          → j < length t.procs
          → is_child me (slot t j) ≡ true
          → NoneDead me t
          → wait ticks me t ≡ (
              if (slot t me).killed
              then some (childless, record t { held = false })
              else some
                  (asleep, record (update_slot t me (fall_asleep (of_proc me))) { held = true })))
  wait_lem = (
    λ i f. (
      record (update_slot t i (reap ticks)) { held = false },
      wait-reaps i f,
      ground (arith, slot-update_slot t i i (reap ticks), f.within),
      ground (arith, slot-update_slot t i i (reap ticks), f.within),
      ground (arith, slot-update_slot t i i (reap ticks), f.within),
      λ k h. rw (slot-update_slot t i k (reap ticks), ne→== i k h) refl,
      refl,
    ),
    wait-childless,
    wait-sleeps,
  )
