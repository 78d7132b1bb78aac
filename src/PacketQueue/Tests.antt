-- ===== src/PacketQueue/Tests.antt =====
-- The queue at small rings.
use opticon.Prelude.{ℕ, ◌≡◌, refl, none, false, List, [], ◌∷◌, arith, get_or}
use opticon.PacketQueue.{
  PacketBuffer, no_packet, Queue, receive, waitpkt, Event, delivered, published, tested, taken, run,
}
use opticon.PacketQueue.Slots.{IsValid, contents}
use opticon.PacketQueue.Schedule.{run_queue, run_refines}
use opticon.PacketQueue.Safety.{receive_all, receive_overrun, waitpkt_keeps}

abbrev packet : ℕ → PacketBuffer
packet n = record { pkt = n ∷ []; addr = n; sz = 1 }

abbrev two_waiting : Queue
two_waiting = record {
  buffer = packet 8 ∷ packet 9 ∷ packet 7 ∷ [];
  sz = 3;
  rpos = 2;
  wpos = 1;
  errcnt = 5;
}

two_waiting-IsValid : IsValid two_waiting
two_waiting-IsValid = omega arith

contents-two_waiting : contents two_waiting ≡ packet 7 ∷ packet 8 ∷ []
contents-two_waiting = refl

abbrev one_waiting : Queue
one_waiting = record two_waiting { wpos = 0 }

-- The last packet overruns the ring between the test and the taking.
abbrev schedule : List Event
schedule =
    tested
    ∷ delivered (packet 3)
    ∷ taken
    ∷ published
    ∷ delivered (record (packet 4) { sz = 0 })
    ∷ tested
    ∷ delivered (packet 5)
    ∷ published
    ∷ taken
    ∷ tested
    ∷ taken
    ∷ []

run-two_waiting : run two_waiting none false schedule ≡ packet 7 ∷ packet 8 ∷ packet 3 ∷ []
unfolding run
run-two_waiting = refl

run_refines_example :
    run two_waiting none false schedule
    ≡ run_queue 3 (packet 7 ∷ packet 8 ∷ []) [] none false schedule
run_refines_example = run_refines two_waiting schedule two_waiting-IsValid

receive_overrun_example : contents (receive two_waiting (packet 5)).1 ≡ []
receive_overrun_example =
    receive_overrun two_waiting (packet 5) two_waiting-IsValid (omega arith) refl

waitpkt_keeps_example :
    get_or (receive_all (record two_waiting { rpos = 0 }) (packet 6 ∷ [])).buffer 2 no_packet
    ≡ packet 7
unfolding waitpkt
waitpkt_keeps_example =
    waitpkt_keeps two_waiting (record two_waiting { rpos = 0 }) 2 (packet 6 ∷ [])
      two_waiting-IsValid refl (omega arith) (omega arith)
