-- ===== src/Pipe/Stream/Wakeups.antt =====
-- sleep and wakeup in a talk over a pipe: a process that goes to sleep in pipewrite or piperead takes
-- no turn until a call of the other one wakes it. Each call is made under the lock of the pipe.
use ut_os.Base.{
  ℕ, suc, ◌<◌, ◌≡◌, ◌==◌, refl, ap, sym, subst, ◌∙◌, Bool, Bool-cases, inl, inr, true, false, ◌&&◌,
  not, if◌then◌else◌, List, [], ◌∷◌, length, arith,
}
use ut_os.Pipe.{
  Pipe, pipe_size, Wake, readers, writers, is_full, is_empty, put, Written, asleep, write_loop,
  woken_by_write, pipewrite, ReadEnd, piperead,
}
use ut_os.Pipe.Window.{count, is_full-eq}
use ut_os.Pipe.Stream.{
  Talk, talk_init, write_turn, read_turn, IsInOrder, write_turn-IsInOrder, write_turn-pos,
  write_turn-received, read_turn-grows, read_turn-IsInOrder, Reach, Reach-IsInOrder,
}

abbrev pub wakes_readers : List Wake → Bool
wakes_readers [] = false
wakes_readers (readers ∷ ws) = true
wakes_readers (writers ∷ ws) = wakes_readers ws

abbrev pub wakes_writers : List Wake → Bool
wakes_writers [] = false
wakes_writers (readers ∷ ws) = wakes_writers ws
wakes_writers (writers ∷ ws) = true

abbrev pub write_sleeps : Written → Bool
write_sleeps (asleep cs) = true
write_sleeps _ = false

abbrev pub read_sleeps : ReadEnd → Bool
read_sleeps ReadEnd.asleep = true
read_sleeps _ = false

-- A talk, and which of the two processes sleep.
pub record Waits : Type 0 where
  pub talk : Talk
  pub writer_asleep : Bool
  pub reader_asleep : Bool

-- A call of pipewrite by the writer, and one of piperead by the reader.
abbrev pub write_step : Waits → Waits
write_step s =
    let (_, w, woken) = pipewrite s.talk.pipe false s.talk.todo in
    record {
      talk = write_turn s.talk;
      writer_asleep = write_sleeps w;
      reader_asleep = s.reader_asleep && not (wakes_readers woken);
    }

abbrev pub read_step : ℕ → Waits → Waits
read_step n s =
    let (_, r, woken) = piperead s.talk.pipe false n in
    record {
      talk = read_turn n s.talk;
      writer_asleep = s.writer_asleep && not (wakes_writers woken);
      reader_asleep = read_sleeps r;
    }

-- Only a process that is awake makes a call.
pub data Course (page message : List ℕ) : Waits → Type 0 where
  begin :
      Course page message
        (record { talk = talk_init page message; writer_asleep = false; reader_asleep = false })
  writes :
      {s : Waits}
      → Course page message s
      → s.writer_asleep ≡ false
      → Course page message (write_step s)
  reads :
      {s : Waits} (n : ℕ)
      → Course page message s
      → s.reader_asleep ≡ false
      → Course page message (read_step n s)

write_loop-sleeps :
    (p : Pipe) (cs : List ℕ)
    → p.readopen ≡ true
    → (write_sleeps (write_loop p false cs).1 ≡ true → is_full (write_loop p false cs).0 ≡ true)
      × (wakes_readers (woken_by_write (write_loop p false cs).1) ≡ true)
unfolding write_loop
write_loop-sleeps p [] o = (λ h. cc, refl)
write_loop-sleeps p (c ∷ cs) o =
    let (full, woken) = write_loop-sleeps (put p c) cs o in
    elim (Bool-cases (is_full p)) [
      | inl e ↦ ground (arith, e, o)
      | inr e ↦ rw (e, write_loop) (full, woken)
    ]

piperead-sleeps :
    (p : Pipe) (n : ℕ)
    → (read_sleeps (piperead p false n).1 ≡ true
        → (is_empty p ≡ true) × ((piperead p false n).0 ≡ p))
      × (read_sleeps (piperead p false n).1 ≡ false → wakes_writers (piperead p false n).2 ≡ true)
unfolding piperead
piperead-sleeps p n = elim (Bool-cases (is_empty p && p.writeopen)) [
  | inl e ↦ rw (e, piperead) ((λ h. (ground arith, refl)), λ h. cc)
  | inr e ↦ rw (e, piperead) ((λ h. absurd (cc)), λ h. refl)
]

-- A writer that sleeps finds the pipe full, and a reader that sleeps finds it empty.
pub record HasReason (s : Waits) : Type 0 where
  pub full : s.writer_asleep ≡ true → is_full s.talk.pipe ≡ true
  pub empty : s.reader_asleep ≡ true → is_empty s.talk.pipe ≡ true

-- The two do not sleep at the same time.
awake : (p : Pipe) → is_full p ≡ true → is_empty p ≡ true → ⊥
awake p f e = ground (arith, f, e)

quiet : (a b : Bool) → b ≡ true → (a && not b) ≡ false
quiet a b h = ground arith

module _ {message : List ℕ} {s : Waits} (r : HasReason s) (inv : IsInOrder message s.talk) where
  write_step-woken : (write_step s).reader_asleep ≡ false
  unfolding pipewrite
  write_step-woken =
      quiet s.reader_asleep _ (write_loop-sleeps s.talk.pipe s.talk.todo inv.reader).1

  write_step-HasReason : HasReason (write_step s)
  unfolding write_turn pipewrite
  write_step-HasReason = record {
    full = (write_loop-sleeps s.talk.pipe s.talk.todo inv.reader).0;
    empty = λ h. absurd (clash (write_step s).reader_asleep h write_step-woken);
  }
    where
      clash : (b : Bool) → b ≡ true → b ≡ false → ⊥
      clash b p q = cc

  read_step-HasReason : (n : ℕ) → HasReason (read_step n s)
  unfolding read_turn
  read_step-HasReason n =
      let (sleeps, woken) = piperead-sleeps s.talk.pipe n in
      record {
        full = λ h. elim (Bool-cases (read_sleeps (piperead s.talk.pipe false n).1)) [
          | inl e ↦
              subst (λ p. is_full p ≡ true) (sym (sleeps e).1) (r.full (first s.writer_asleep _ h))
          | inr e ↦ absurd (ground (arith, woken e, h))
        ];
        empty = λ h. subst (λ p. is_empty p ≡ true) (sym (sleeps h).1) (sleeps h).0;
      }
    where
      first : (a b : Bool) → (a && b) ≡ true → a ≡ true
      first a b h = ground arith

Course-IsInOrder :
    {page message : List ℕ} {s : Waits}
    → length page ≡ pipe_size
    → Course page message s
    → IsInOrder message s.talk
Course-IsInOrder len begin = Reach-IsInOrder len Reach.start
Course-IsInOrder len (writes c a) = write_turn-IsInOrder (Course-IsInOrder len c)
Course-IsInOrder len (reads n c a) = read_turn-IsInOrder (Course-IsInOrder len c) n

Course-HasReason :
    {page message : List ℕ} {s : Waits}
    → length page ≡ pipe_size
    → Course page message s
    → HasReason s
Course-HasReason len begin = record { full = λ h. cc; empty = λ h. cc }
Course-HasReason len (writes c a) =
    write_step-HasReason (Course-HasReason len c) (Course-IsInOrder len c)
Course-HasReason len (reads n c a) =
    read_step-HasReason (Course-HasReason len c) (Course-IsInOrder len c) n

-- The writer's call where it is awake.
abbrev pub write_if_awake : Waits → Waits
write_if_awake s = if s.writer_asleep then s else write_step s

-- No deadlock and no lost wakeup: in every state of a talk in which the reader has not received the
-- whole message, each call made by a process that is awake, the writer and the reader are not both
-- asleep; after a call of the writer, if it is awake, the reader is awake, and its next read of at
-- least one byte delivers something.
pub stream_delivers :
    {page message : List ℕ} {s : Waits} (n : ℕ)
    → length page ≡ pipe_size
    → Course page message s
    → length s.talk.received < length message
    → ((write_if_awake s).reader_asleep ≡ false)
      × (length s.talk.received < length (read_step (suc n) (write_if_awake s)).talk.received)
stream_delivers {s} n len c h =
    let inv = Course-IsInOrder len c in
    let r = Course-HasReason len c in
    elim (Bool-cases s.writer_asleep) [
      | inl e ↦ rw e (
        reader_awake s.reader_asleep (λ q. awake s.talk.pipe (r.full e) (r.empty q)),
        read_turn-grows inv n (full_pos s.talk.pipe (sym (is_full-eq inv.valid) ∙ r.full e)),
      )
      | inr e ↦ rw e (
        write_step-woken r inv,
        omega (
          arith,
          read_turn-grows (write_turn-IsInOrder inv) n (write_turn-pos inv h),
          ap length (write_turn-received inv),
        ),
      )
    ]
  where
    reader_awake : (b : Bool) → (b ≡ true → ⊥) → b ≡ false
    reader_awake b f = elim (Bool-cases b) [ inl e ↦ absurd (f e) | inr e ↦ e ]

    full_pos : (p : Pipe) → (count p == pipe_size) ≡ true → 0 < count p
    full_pos p h = ground (arith, h)
