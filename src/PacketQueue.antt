-- ===== src/PacketQueue.antt =====
-- src/libopticon/packetqueue.c: the ring between the receiving thread and the consumer. The
-- mutex makes each critical section one step; what `recv` delivers is the argument of a step. The
-- count of crowded rounds, which the producer alone reads, is part of the step before it.
pub mod Slots
pub mod Refine
pub mod Schedule
pub mod Safety
mod Tests
use opticon.Prelude.{
  ℕ, zero, suc, ◌+◌, ◌-◌, ◌/◌, ◌%◌, Bool, true, false, Option, none, some, List, [], ◌∷◌, ltb, leb,
  ◌==◌, if◌then◌else◌, not, ◌||◌, get_or, set,
}

-- `pktbuf`
pub record PacketBuffer : Type 0 where
  pub pkt : List ℕ
  pub addr : ℕ
  pub sz : ℕ

abbrev pub no_packet : PacketBuffer
no_packet = record { pkt = []; addr = 0; sz = 0 }

-- `packetqueue`, with the count of crowded rounds that the thread keeps in `errcnt`
pub record Queue : Type 0 where
  pub buffer : List PacketBuffer
  pub sz : ℕ
  pub rpos : ℕ
  pub wpos : ℕ
  pub errcnt : ℕ

-- what `calloc` gives
abbrev pub zeroes : ℕ → List PacketBuffer
zeroes zero = []
zeroes (suc n) = no_packet ∷ zeroes n

pub create : ℕ → Queue
create qcount = record { buffer = zeroes qcount; sz = qcount; rpos = 0; wpos = 0; errcnt = 0 }

-- `pos++; if (pos >= sz) pos -= sz;`
abbrev pub advance : ℕ → ℕ → ℕ
advance sz pos = if leb sz (pos + 1) then pos + 1 - sz else pos + 1

-- `int backlog = wpos - rpos; if (backlog < 0) backlog += sz;`
abbrev pub backlog : Queue → ℕ
backlog q = if leb q.rpos q.wpos then q.wpos - q.rpos else q.wpos + q.sz - q.rpos

-- `recv` fills the slot at `wpos`, whatever it returns.
abbrev pub fill_slot : Queue → PacketBuffer → Queue
fill_slot q got =
    let old = get_or q.buffer q.wpos no_packet in
    record q { buffer = set q.buffer q.wpos (record old { pkt = got.pkt; addr = got.addr }) }

-- the critical section of the producer
abbrev pub publish : Queue → ℕ → Queue
publish q sz =
    let old = get_or q.buffer q.wpos no_packet in
    record q { buffer = set q.buffer q.wpos (record old { sz = sz }); wpos = advance q.sz q.wpos }

-- the warning: the count, and whether a line is logged
abbrev pub crowded : Queue → Bool
crowded q = ltb (q.sz / 4) (backlog q)

abbrev pub count_crowded : Queue → Bool × Queue
count_crowded q =
    if crowded q then (q.errcnt % 64 == 0, record q { errcnt = q.errcnt + 1 }) else (false, q)

-- One round of `packetqueue_run`: `got` is what `intransport_recv` wrote and returned. The result
-- says whether a backlog warning was logged.
pub receive : Queue → PacketBuffer → Bool × Queue
receive q got =
    let filled = fill_slot q got in
    if ltb 0 got.sz then count_crowded (publish filled got.sz) else (false, filled)

-- The test of `packetqueue_waitpkt`, its first critical section.
abbrev pub has_data : Queue → Bool
has_data q = not (q.rpos == q.wpos)

-- Its second one: the index of the slot that is handed out.
abbrev pub take_packet : Queue → ℕ × Queue
take_packet q = (q.rpos, record q { rpos = advance q.sz q.rpos })

-- A call of `packetqueue_waitpkt` that nothing comes between; `none` where it waits.
pub waitpkt : Queue → Option (ℕ × Queue)
waitpkt q = if has_data q then some (take_packet q) else none

-- The steps of the two threads. `recv` fills its slot before the producer takes the mutex, and the
-- consumer releases it between the test and the taking.
pub data Event : Type 0 where
  delivered : PacketBuffer → Event
  published : Event
  tested : Event
  taken : Event

-- The packets handed out along a schedule, from a packet that the producer is about to publish and
-- the `havedata` of the consumer. A step that its thread is not at does nothing.
pub run : Queue → Option PacketBuffer → Bool → List Event → List PacketBuffer
run q pending havedata [] = []
run q none havedata (delivered got ∷ es) =
    run (fill_slot q got) (if ltb 0 got.sz then some got else none) havedata es
run q (some p) havedata (delivered got ∷ es) = run q (some p) havedata es
run q none havedata (published ∷ es) = run q none havedata es
run q (some got) havedata (published ∷ es) =
    run (count_crowded (publish q got.sz)).1 none havedata es
run q pending havedata (tested ∷ es) = run q pending (havedata || has_data q) es
run q pending false (taken ∷ es) = run q pending false es
run q pending true (taken ∷ es) =
    get_or q.buffer (take_packet q).0 no_packet ∷ run (take_packet q).1 pending false es
