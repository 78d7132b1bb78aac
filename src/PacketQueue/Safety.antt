-- ===== src/PacketQueue/Safety.antt =====
-- Bursts of packets, slots in use, and a full ring.
use opticon.Prelude.{
  refl, some, ap₂, sym, ◌≢◌, get_or, get_or-set_ne, if◌then◌else◌, ◌==◌, ◌-◌, ℕ_discrete, ℕ, ◌+◌,
  ◌<◌, ◌≡◌, ◌∙◌, ap, List, [], ◌∷◌, ◌++◌, arith, length, append_assoc, append-nil, length-append,
}
use opticon.PacketQueue.{advance, no_packet, waitpkt, PacketBuffer, Queue, backlog, receive}
use opticon.PacketQueue.Slots.{
  receive_zero, receive-Received, IsValid, contents, receive-IsValid, length-contents,
}
use opticon.PacketQueue.Refine.{put, receive_refines, sz-receive}

pub receive_all : Queue → List PacketBuffer → Queue
receive_all q [] = q
receive_all q (got ∷ gots) = receive_all (receive q got).1 gots

abbrev pub Nonempty : List PacketBuffer → Type 0
Nonempty [] = Unit
Nonempty (got ∷ gots) = (0 < got.sz) × Nonempty gots

put_room :
    (cap : ℕ) (w : List PacketBuffer) (got : PacketBuffer)
    → 0 < got.sz
    → length w + 1 < cap
    → put cap w got ≡ w ++ got ∷ []
unfolding put
put_room cap w got pos room = ground arith

first_contents :
    (q : Queue) (got : PacketBuffer)
    → IsValid q
    → 0 < got.sz
    → backlog q + 1 < q.sz
    → contents (receive q got).1 ≡ contents q ++ got ∷ []
first_contents q got v pos room =
    receive_refines got v ∙ put_room q.sz (contents q) got pos (omega (arith, length-contents q))

backlog-receive :
    (q : Queue) (got : PacketBuffer)
    → IsValid q
    → 0 < got.sz
    → backlog q + 1 < q.sz
    → backlog (receive q got).1 ≡ backlog q + 1
backlog-receive q got v pos room = omega (
  arith,
  length-contents (receive q got).1,
  length-contents q,
  ap length (first_contents q got v pos room),
  length-append (contents q) (got ∷ []),
)

-- As long as the ring keeps a free slot, a burst of packets is queued whole and in order.
pub receive_burst :
    (q : Queue) (gots : List PacketBuffer)
    → IsValid q
    → Nonempty gots
    → backlog q + length gots < q.sz
    → contents (receive_all q gots) ≡ contents q ++ gots
unfolding receive_all
receive_burst q [] v ne room = rw append-nil
receive_burst q (got ∷ gots) v ne room =
    let count = backlog-receive q got v ne.0 (omega arith) in
    receive_burst (receive q got).1 gots (receive-IsValid got v) ne.1
      (omega (arith, count, sz-receive got v))
    ∙ ap (λ w. w ++ gots) (first_contents q got v ne.0 (omega arith))
    ∙ append_assoc (contents q) (got ∷ []) gots

put_full :
    (cap : ℕ) (w : List PacketBuffer) (got : PacketBuffer)
    → 0 < got.sz
    → length w + 1 ≡ cap
    → put cap w got ≡ []
unfolding put
put_full cap w got pos full = ground arith

-- With `sz - 1` packets waiting, one more packet makes the ring look empty: all `sz` are lost.
pub receive_overrun :
    (q : Queue) (got : PacketBuffer)
    → IsValid q
    → 0 < got.sz
    → backlog q + 1 ≡ q.sz
    → contents (receive q got).1 ≡ []
receive_overrun q got v pos full =
    receive_refines got v ∙ put_full q.sz (contents q) got pos (omega (arith, length-contents q))

-- the slot behind the consumer's cursor, the one that `waitpkt` handed out last
abbrev pub handed_slot : Queue → ℕ
handed_slot q = if q.rpos == 0 then q.sz - 1 else q.rpos - 1

receive-other :
    (q : Queue) (got : PacketBuffer) (i : ℕ)
    → IsValid q
    → q.wpos ≢ i
    → get_or (receive q got).1.buffer i no_packet ≡ get_or q.buffer i no_packet
receive-other q got i v ne = elim (ℕ_discrete got.sz 0) [
  | yes e ↦ rw (receive_zero q got e) (get_or-set_ne q.buffer _ no_packet ne)
  | no n ↦
      ap (λ b. get_or b i no_packet) (receive-Received q got (omega arith) (omega arith)).buffer
      ∙ get_or-set_ne q.buffer got no_packet ne
]

rpos-receive : (q : Queue) (got : PacketBuffer) → IsValid q → (receive q got).1.rpos ≡ q.rpos
rpos-receive q got v = elim (ℕ_discrete got.sz 0) [
  | yes e ↦ rw (receive_zero q got e)
  | no n ↦ (receive-Received q got (omega arith) (omega arith)).rpos
]

receive_all-handed :
    (q : Queue) (gots : List PacketBuffer) (i : ℕ)
    → IsValid q
    → Nonempty gots
    → i ≡ handed_slot q
    → backlog q + length gots < q.sz
    → get_or (receive_all q gots).buffer i no_packet ≡ get_or q.buffer i no_packet
unfolding receive_all
receive_all-handed q [] i v ne at room = refl
receive_all-handed q (got ∷ gots) i v ne at room =
    let r = (receive q got).1 in
    let same = rpos-receive q got v in
    let size = sz-receive got v in
    let count : backlog r ≡ backlog q + 1 = backlog-receive q got v ne.0 (omega arith) in
    receive_all-handed r gots i (receive-IsValid got v) ne.1
      (at ∙ ap₂ (λ p s. if p == 0 then s - 1 else p - 1) (sym same) (sym size))
      (omega (arith, count, size))
    ∙ receive-other q got i v (ground arith)

-- The slot that `waitpkt` handed out keeps its packet while the packets that arrive leave the ring
-- a free slot.
pub waitpkt_keeps :
    (q q' : Queue) (i : ℕ) (gots : List PacketBuffer)
    → IsValid q
    → waitpkt q ≡ some (i, q')
    → Nonempty gots
    → backlog q' + length gots < q'.sz
    → get_or (receive_all q' gots).buffer i no_packet ≡ get_or q.buffer i no_packet
unfolding waitpkt
waitpkt_keeps q q' i gots v e ne room =
    let r = record q { rpos = advance q.sz q.rpos } in
    let taken : (i ≡ q.rpos) × (q' ≡ r) = ground arith in
    let v' : IsValid r = record {
      storage = v.storage;
      read_in = ground arith;
      write_in = v.write_in;
    } in
    let at : i ≡ handed_slot r = ground arith in
    rw taken.1 (receive_all-handed r gots i v' ne at (rw taken.1 at room))
