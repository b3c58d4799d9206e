-- ===== src/Pipe/Read.antt =====
-- piperead and pipeclose of pipe.c, as operations on the bytes in flight.
use ut_os.Base.{
  ℕ, zero, suc, ◌-◌, ◌≡◌, ap, Bool, true, false, ◌&&◌, ◌==◌, if◌then◌else◌, List, [], ◌∷◌,
  Bool-cases, inl, inr, take, drop, arith, get_or, ◌%◌,
}
use ut_os.Pipe.{
  Pipe, pipe_size, is_empty, advance, writers, got, failed, asleep, read_loop, piperead,
}
use ut_os.Pipe.Window.{count, contents, IsValid, is_empty-eq, window, window-suc}

pub record TookBytes (p : Pipe) (n : ℕ) (p' : Pipe) (cs : List ℕ) : Type 0 where
  pub valid : IsValid p'
  pub bytes : cs ≡ take n (contents p)
  pub left : contents p' ≡ drop n (contents p)
  pub reader_same : p'.readopen ≡ p.readopen
  pub writer_same : p'.writeopen ≡ p.writeopen
  pub unwritten : p'.nwrite ≡ p.nwrite

contents_empty : {p : Pipe} → IsValid p → is_empty p ≡ true → contents p ≡ []
contents_empty {p} v e =
    let none_left : count p ≡ 0 = ground (arith, is_empty-eq v) in
    ap (window p.buf p.nread) none_left

advance-IsValid : {p : Pipe} → IsValid p → is_empty p ≡ false → IsValid (advance p)
advance-IsValid v f = ground arith

contents-advance :
    {p : Pipe}
    → IsValid p
    → is_empty p ≡ false
    → contents p ≡ get_or p.buf (p.nread % pipe_size) 0 ∷ contents (advance p)
contents-advance {p} v f =
    let fewer : count (advance p) ≡ count p - 1 = ground arith in
    rw fewer (window-suc p.buf p.nread (count p) (ground arith))

read_loop-empty : (n : ℕ) (p : Pipe) → IsValid p → is_empty p ≡ true → TookBytes p (suc n) p []
read_loop-empty n p v e = ground (arith, contents_empty v e)

read_loop-step :
    (n : ℕ) (p q : Pipe) (cs : List ℕ)
    → IsValid p
    → is_empty p ≡ false
    → TookBytes (advance p) n q cs
    → TookBytes p (suc n) q (get_or p.buf (p.nread % pipe_size) 0 ∷ cs)
read_loop-step n p q cs v f t = ground (arith, contents-advance v f)

pub read_loop-TookBytes :
    (n : ℕ) (p : Pipe) → IsValid p → TookBytes p n (read_loop p n).0 (read_loop p n).1
unfolding read_loop
read_loop-TookBytes zero p v = ground arith
read_loop-TookBytes (suc n) p v = elim (Bool-cases (is_empty p)) [
  | inl e ↦ rw e (read_loop-empty n p v e)
  | inr f ↦
      rw f (read_loop-step n p _ _ v f (read_loop-TookBytes n (advance p) (advance-IsValid v f)))
]

-- A read has to wait: no byte is in flight and the write end is open.
abbrev pub waits : Pipe → Bool
waits p = count p == 0 && p.writeopen

-- piperead keeps the pipe valid. With no byte in flight and the write end open it takes nothing and
-- wakes nobody, and fails if the caller is killed and sleeps if not. Otherwise it returns the oldest
-- bytes in flight, `n` of them or all if there are fewer (so none at the end of the stream), leaves
-- the others, and wakes the writers.
pub piperead_lem :
    (p : Pipe) (killed : Bool) (n : ℕ)
    → IsValid p
    → let (p', r, woken) = piperead p killed n in
      IsValid p'
      × (r ≡ (if waits p then (if killed then failed else asleep) else got (take n (contents p))))
      × (contents p' ≡ (if waits p then contents p else drop n (contents p)))
      × (woken ≡ (if waits p then [] else writers ∷ []))
      × (p'.writeopen ≡ p.writeopen)
      × (p'.readopen ≡ p.readopen)
unfolding piperead
piperead_lem p killed n v = ground (arith, is_empty-eq v, read_loop-TookBytes n p v)
