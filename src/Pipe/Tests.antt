-- ===== src/Pipe/Tests.antt =====
-- The pipe at work.
use ut_os.Base.{ℕ, ◌≡◌, refl, true, List, [], ◌∷◌, ◌++◌, replicate, arith}
use ut_os.Pipe.{Pipe}
use ut_os.Pipe.Window.{contents, IsValid}
use ut_os.Pipe.Stream.{
  Talk, talk_init, write_turn, read_turn, Reach, start, writes, reads, stream_in_order,
}

abbrev page : List ℕ
page = replicate 512 0

abbrev fresh : Pipe
fresh = record { buf = page; nread = 0; nwrite = 0; readopen = true; writeopen = true }

fresh-IsValid : IsValid fresh
fresh-IsValid = record {
  storage = refl;
  read_word = omega arith;
  write_word = omega arith;
  room = omega arith;
}

-- Two bytes in flight, their counters about to wrap.
abbrev busy : Pipe
busy = record fresh { nread = 4294967295; nwrite = 1 }

busy-IsValid : IsValid busy
busy-IsValid = record {
  storage = refl;
  read_word = omega arith;
  write_word = omega arith;
  room = omega arith;
}

abbrev message : List ℕ
message = 1 ∷ 2 ∷ 3 ∷ []

abbrev talk : Talk
talk = read_turn 2 (write_turn (talk_init page message))

talk-Reach : Reach page message talk
talk-Reach = reads 2 (writes start)

stream_in_order_example : talk.received ++ (contents talk.pipe ++ talk.todo) ≡ message
stream_in_order_example =
    stream_in_order {page = page} {message = message} {t = talk} refl talk-Reach
