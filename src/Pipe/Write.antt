-- ===== src/Pipe/Write.antt =====
-- pipewrite of pipe.c, as an operation on the bytes in flight.
use ut_os.Base.{
  ℕ, ◌-◌, ◌≡◌, ap, Bool, true, false, ◌||◌, not, ltb, if◌then◌else◌, List, [], ◌∷◌, Bool-cases, inl,
  inr, ◌++◌, length, take, drop, take-cons, drop-cons, take-nil, arith,
}
use mathlib.Core.List.{append-nil, append_assoc}
use ut_os.Pipe.{
  Pipe, pipe_size, put, is_full, Written, copied, failed, asleep, write_loop, woken_by_write,
  pipewrite,
}
use ut_os.Pipe.Window.{count, contents, IsValid, is_full-eq, put-IsValid, count-put, contents-put}

abbrev pub room : Pipe → ℕ
room p = pipe_size - count p

-- How a write of `cs` ends: with the bytes that fit, and then by the state of the reader.
abbrev pub write_end : Pipe → Bool → List ℕ → Written
write_end p killed cs =
    if ltb (room p) (length cs)
    then (if not p.readopen || killed then failed else asleep (drop (room p) cs))
    else copied

pub record Wrote (p : Pipe) (killed : Bool) (cs : List ℕ) (p' : Pipe) (w : Written) : Type 0 where
  pub valid : IsValid p'
  pub bytes : contents p' ≡ contents p ++ take (room p) cs
  pub ends : w ≡ write_end p killed cs
  pub reader_same : p'.readopen ≡ p.readopen
  pub writer_same : p'.writeopen ≡ p.writeopen
  pub unread : p'.nread ≡ p.nread

no_room : {p : Pipe} → IsValid p → is_full p ≡ true → room p ≡ 0
no_room v h = ground (arith, is_full-eq v)

module _ (killed : Bool) where
  write_loop-step :
      (p : Pipe) (c : ℕ) (cs : List ℕ)
      → IsValid p
      → is_full p ≡ false
      → Wrote
          (put p c)
          killed
          cs
          (write_loop (put p c) killed cs).0
          (write_loop (put p c) killed cs).1
      → Wrote p killed
          (c ∷ cs)
          (write_loop (put p c) killed cs).0
          (write_loop (put p c) killed cs).1
  write_loop-step p c cs v h w = ground (
    arith,
    count-put c v h,
    contents-put c v h,
    is_full-eq v,
    append_assoc (contents p) (c ∷ []) (take (room (put p c)) cs),
    take-cons (room p) c cs,
    drop-cons (room p) c cs,
  )

  write_loop-full :
      (p : Pipe) (c : ℕ) (cs : List ℕ)
      → IsValid p
      → is_full p ≡ true
      → let r : Pipe × Written =
          if not p.readopen || killed then (p, failed) else (p, asleep (c ∷ cs)) in
        Wrote p killed (c ∷ cs) r.0 r.1
  write_loop-full p c cs v h = ground (
    arith,
    ap (λ k. take k (c ∷ cs)) (no_room v h),
    ap (λ k. drop k (c ∷ cs)) (no_room v h),
    no_room v h,
    append-nil (contents p),
  )

  pub write_loop-Wrote :
      (cs : List ℕ) (p : Pipe)
      → IsValid p
      → Wrote p killed cs (write_loop p killed cs).0 (write_loop p killed cs).1
  unfolding write_loop
  write_loop-Wrote [] p v = ground (arith, take-nil {A = ℕ} (room p), append-nil (contents p))
  write_loop-Wrote (c ∷ cs) p v = elim (Bool-cases (is_full p)) [
    | inl full ↦ rw full (write_loop-full p c cs v full)
    | inr free ↦
        rw free
          (write_loop-step p c cs v free (write_loop-Wrote cs (put p c) (put-IsValid c v free)))
  ]

-- pipewrite keeps the pipe valid, appends to the bytes in flight as many of the caller's bytes, in
-- order, as there is room for, and ends by what it could not place: with nothing left it returns,
-- otherwise it fails if the read end is closed or the caller is killed, and sleeps with exactly the
-- bytes that did not fit if not. It wakes the readers except when it fails, and changes neither end's
-- flag nor the read counter.
pub pipewrite_lem :
    (p : Pipe) (killed : Bool) (cs : List ℕ)
    → IsValid p
    → let (p', w, woken) = pipewrite p killed cs in
      Wrote p killed cs p' w × (woken ≡ woken_by_write (write_end p killed cs))
unfolding pipewrite
pipewrite_lem p killed cs v =
    let w = write_loop-Wrote killed cs p v in (w, ap woken_by_write w.ends)
