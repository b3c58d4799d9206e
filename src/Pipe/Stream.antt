-- ===== src/Pipe/Stream.antt =====
-- A writer and a reader of one pipe, taking turns in any order, both ends open and neither killed.
pub mod Wakeups
pub mod Tests
use ut_os.Base.{
  ℕ, suc, ◌+◌, ◌<◌, ◌≡◌, refl, ap, ◌∙◌, true, false, List, [], ◌++◌, length, take, drop,
  take-append-drop, drop-all, length-take, length-append, arith,
}
use mathlib.Core.List.{append_assoc}
use ut_os.Pipe.{
  Pipe, pipe_size, pipe_init, Written, copied, failed, asleep, ReadEnd, got, pipewrite, piperead,
}
use ut_os.Pipe.Window.{count, contents, IsValid, length-window}
use ut_os.Pipe.Write.{room, write_end, pipewrite_lem}
use ut_os.Pipe.Read.{piperead_lem}

-- `todo` are the bytes of the writer's call that are still to be placed.
pub record Talk : Type 0 where
  pub pipe : Pipe
  pub todo : List ℕ
  pub received : List ℕ

abbrev pub left_over : Written → List ℕ
left_over copied = []
left_over failed = []
left_over (asleep cs) = cs

abbrev pub taken : ReadEnd → List ℕ
taken (got cs) = cs
taken ReadEnd.failed = []
taken ReadEnd.asleep = []

-- The writer's call, entered or woken again.
pub write_turn : Talk → Talk
write_turn t =
    let (p', w, _) = pipewrite t.pipe false t.todo in record t { pipe = p'; todo = left_over w }

-- A call `piperead(p, addr, n)` of the reader.
pub read_turn : ℕ → Talk → Talk
read_turn n t =
    let (p', r, _) = piperead t.pipe false n in
    record t { pipe = p'; received = t.received ++ taken r }

abbrev pub talk_init : List ℕ → List ℕ → Talk
talk_init page message = record { pipe = pipe_init page; todo = message; received = [] }

pub data Reach (page message : List ℕ) : Talk → Type 0 where
  start : Reach page message (talk_init page message)
  writes : {t : Talk} → Reach page message t → Reach page message (write_turn t)
  reads : {t : Talk} (n : ℕ) → Reach page message t → Reach page message (read_turn n t)

-- What stands in every state of a talk about `message`.
pub record IsInOrder (message : List ℕ) (t : Talk) : Type 0 where
  pub valid : IsValid t.pipe
  pub reader : t.pipe.readopen ≡ true
  pub order : t.received ++ (contents t.pipe ++ t.todo) ≡ message

left_over-write_end :
    (p : Pipe) (cs : List ℕ)
    → p.readopen ≡ true
    → left_over (write_end p false cs) ≡ drop (room p) cs
left_over-write_end p cs h = ground (arith, drop-all (room p) cs)

module _ {message : List ℕ} {t : Talk} (inv : IsInOrder message t) where
  write_turn-todo : (write_turn t).todo ≡ drop (room t.pipe) t.todo
  unfolding write_turn
  write_turn-todo =
      ap left_over (pipewrite_lem t.pipe false t.todo inv.valid).0.ends
      ∙ left_over-write_end t.pipe t.todo inv.reader

  write_turn-order : t.received ++ (contents (write_turn t).pipe ++ (write_turn t).todo) ≡ message
  unfolding write_turn
  write_turn-order =
      rw
        (
          (pipewrite_lem t.pipe false t.todo inv.valid).0.bytes,
          write_turn-todo,
          append_assoc (contents t.pipe) (take (room t.pipe) t.todo) (drop (room t.pipe) t.todo),
          take-append-drop (room t.pipe) t.todo,
        )
        inv.order

  pub write_turn-IsInOrder : IsInOrder message (write_turn t)
  unfolding write_turn
  write_turn-IsInOrder = record {
    valid = (pipewrite_lem t.pipe false t.todo inv.valid).0.valid;
    reader = (pipewrite_lem t.pipe false t.todo inv.valid).0.reader_same ∙ inv.reader;
    order = write_turn-order;
  }

  read_split :
      (n : ℕ)
      → taken (piperead t.pipe false n).1 ++ contents (piperead t.pipe false n).0 ≡ contents t.pipe
  read_split n =
      ground (arith, piperead_lem t.pipe false n inv.valid, take-append-drop n (contents t.pipe))

  pub read_turn-IsInOrder : (n : ℕ) → IsInOrder message (read_turn n t)
  unfolding read_turn
  read_turn-IsInOrder n = record {
    valid = (piperead_lem t.pipe false n inv.valid).0;
    reader = (piperead_lem t.pipe false n inv.valid).5 ∙ inv.reader;
    order =
        rw
          (
            append_assoc t.received (taken (piperead t.pipe false n).1),
            ← append_assoc (taken (piperead t.pipe false n).1)
                (contents (piperead t.pipe false n).0) t.todo,
            read_split n,
          )
          inv.order;
  }

  length-message : length t.received + (count t.pipe + length t.todo) ≡ length message
  length-message = omega (
    arith,
    ap length inv.order,
    length-append t.received (contents t.pipe ++ t.todo),
    length-append (contents t.pipe) t.todo,
    length-window t.pipe.buf t.pipe.nread (count t.pipe),
  )

  write_turn-count : count (write_turn t).pipe ≡ count t.pipe + (length (take (room t.pipe) t.todo))
  unfolding write_turn
  write_turn-count = omega (
    arith,
    ap length (pipewrite_lem t.pipe false t.todo inv.valid).0.bytes,
    length-append (contents t.pipe) (take (room t.pipe) t.todo),
    length-window (write_turn t).pipe.buf (write_turn t).pipe.nread (count (write_turn t).pipe),
    length-window t.pipe.buf t.pipe.nread (count t.pipe),
  )

  pub write_turn-pos : length t.received < length message → 0 < count (write_turn t).pipe
  write_turn-pos h =
      omega (arith, write_turn-count, length-message, length-take (room t.pipe) t.todo)

  pub write_turn-received : (write_turn t).received ≡ t.received
  unfolding write_turn
  write_turn-received = refl

  read_taken :
      (n : ℕ)
      → 0 < count t.pipe
      → taken (piperead t.pipe false (suc n)).1 ≡ take (suc n) (contents t.pipe)
  read_taken n h = ground (arith, (piperead_lem t.pipe false (suc n) inv.valid).1)

  pub read_turn-grows :
      (n : ℕ) → 0 < count t.pipe → length t.received < length (read_turn (suc n) t).received
  unfolding read_turn
  read_turn-grows n h = omega (
    arith,
    length-append t.received (taken (piperead t.pipe false (suc n)).1),
    ap length (read_taken n h),
    length-take (suc n) (contents t.pipe),
    length-window t.pipe.buf t.pipe.nread (count t.pipe),
  )

pipe_init-IsInOrder :
    (page message : List ℕ) → length page ≡ pipe_size → IsInOrder message (talk_init page message)
unfolding pipe_init
pipe_init-IsInOrder page message len = record { valid = omega arith; reader = refl; order = refl }

pub Reach-IsInOrder :
    {page message : List ℕ} {t : Talk}
    → length page ≡ pipe_size
    → Reach page message t
    → IsInOrder message t
Reach-IsInOrder len start = pipe_init-IsInOrder _ _ len
Reach-IsInOrder len (writes r) = write_turn-IsInOrder (Reach-IsInOrder len r)
Reach-IsInOrder len (reads n r) = read_turn-IsInOrder (Reach-IsInOrder len r) n

-- Whatever the order in which a writer and a reader take turns at a fresh pipe, the bytes that the
-- reader has received, those in flight and those that the writer still holds are, put together, the
-- message: no byte is lost, doubled or overtaken.
pub stream_in_order :
    {page message : List ℕ} {t : Talk}
    → length page ≡ pipe_size
    → Reach page message t
    → t.received ++ (contents t.pipe ++ t.todo) ≡ message
stream_in_order len r = (Reach-IsInOrder len r).order
