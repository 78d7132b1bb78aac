-- ===== src/PacketQueue/Refine.antt =====
-- A whole round of the producer against a queue that one packet too many empties.
use opticon.Prelude.{
  ℕ, zero, suc, ◌+◌, ◌-◌, ◌≡◌, refl, ◌≢◌, ap, ℕ_discrete, List, [], ◌∷◌, ◌++◌, arith, ltb, ◌==◌,
  if◌then◌else◌, length, get_or, lt→ltb,
}
use opticon.PacketQueue.Slots.{
  IsValid, contents, slots, wpos-around, receive-Received, contents-Received, receive_zero,
  slots-set,
}
use opticon.PacketQueue.{PacketBuffer, no_packet, Queue, advance, backlog, receive}

-- The abstract queue: a packet of size 0 is an error and is not stored; the packet that would make
-- `cap` empties the queue.
unfoldable pub put : ℕ → List PacketBuffer → PacketBuffer → List PacketBuffer
put cap w got = if ltb 0 got.sz then if length w + 1 == cap then [] else w ++ got ∷ [] else w

-- A round of the producer is `put`.
pub receive_refines :
    {q : Queue} (got : PacketBuffer)
    → IsValid q
    → contents (receive q got).1 ≡ put q.sz (contents q) got
unfolding put
receive_refines {q} got v = elim (ℕ_discrete got.sz 0) [
  | yes e ↦
      let (at, small) = wpos-around v in
      rw (receive_zero q got e, e)
        (slots-set q.buffer q.sz q.rpos (backlog q) q.wpos _ v.read_in small at)
  | no n ↦
      rw (lt→ltb 0 got.sz (omega arith))
        (contents-Received v (receive-Received q got (omega arith) (omega arith)))
]

pub slots_ne_zero :
    (buf : List PacketBuffer) (sz pos n : ℕ)
    → n ≢ 0
    → slots buf sz pos n ≡ get_or buf pos no_packet ∷ slots buf sz (advance sz pos) (n - 1)
slots_ne_zero buf sz pos zero h = absurd (h refl)
slots_ne_zero buf sz pos (suc n) h = ap (λ k. slots buf sz pos (suc k)) (omega arith)

pub sz-receive : {q : Queue} (got : PacketBuffer) → IsValid q → (receive q got).1.sz ≡ q.sz
sz-receive {q} got v = elim (ℕ_discrete got.sz 0) [
  | yes e ↦ rw (receive_zero q got e)
  | no n ↦ (receive-Received q got (omega arith) (omega arith)).sz
]
