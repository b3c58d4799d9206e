-- ===== src/Pipe/Stream/Tests.antt =====
-- A reader that goes to sleep on an empty pipe, and is woken.
use ut_os.Base.{ℕ, ◌<◌, ◌≡◌, refl, false, List, [], ◌∷◌, length, replicate, arith}
use ut_os.Pipe.{pipe_init, piperead}
use ut_os.Pipe.Stream.{talk_init, read_turn}
use ut_os.Pipe.Stream.Wakeups.{Waits, read_step, write_if_awake, begin, reads, stream_delivers}

abbrev message : List ℕ
message = 104 ∷ 105 ∷ []

abbrev waiting : Waits
waiting = read_step 4 (record {
  talk = talk_init (replicate 512 0) message;
  writer_asleep = false;
  reader_asleep = false;
})

nothing_yet : length waiting.talk.received ≡ 0
unfolding read_turn piperead pipe_init
nothing_yet = refl

stream_delivers_example :
    ((write_if_awake waiting).reader_asleep ≡ false)
    × (length waiting.talk.received < length (read_step 1 (write_if_awake waiting)).talk.received)
stream_delivers_example =
    stream_delivers {page = replicate 512 0} {message = message} {s = waiting} 0 refl
      (reads 4 begin refl) (omega (arith, nothing_yet))
