-- ===== src/PacketQueue/Schedule.antt =====
-- The steps of the two threads, in any order, against a queue.
use opticon.Prelude.{
  ℕ, suc, ◌+◌, ◌-◌, ◌<◌, ◌≡◌, refl, ◌≢◌, ap, ap₂, sym, ◌∙◌, subst, Bool, true, false, ◌||◌,
  Bool-cases, inl, inr, Option, none, some, List, [], ◌∷◌, ◌++◌, arith, ltb, ◌==◌, if◌then◌else◌,
  length, drop, length-append, get_or, set, length-set, get_or-set_self,
}
use opticon.PacketQueue.Slots.{
  around, IsValid, contents, slots, length-contents, wpos-around, slots-set, Received,
  count_crowded_fields, contents-Received, backlog-Received, stored_slots,
}
use opticon.PacketQueue.Refine.{slots_ne_zero}
use opticon.PacketQueue.{
  PacketBuffer, no_packet, Queue, advance, backlog, fill_slot, publish, count_crowded, has_data,
  take_packet, Event, delivered, published, tested, taken, run,
}

-- `recv` writes over the packet that the overrun lost first, but for its size.
abbrev pub refilled : PacketBuffer → List PacketBuffer → List PacketBuffer
refilled got [] = []
refilled got (x ∷ lost) = record x { pkt = got.pkt; addr = got.addr } ∷ lost

-- The same schedule on a queue: `w` waits, and `lost` is what the last overrun lost, as long as
-- nothing was published or taken since. A packet that makes `cap` of them empties the queue. A
-- consumer that tested before the overrun is handed the first of the lost packets, and the others
-- wait again.
unfoldable pub run_queue :
    ℕ → (w lost : List PacketBuffer) → Option PacketBuffer → Bool → List Event → List PacketBuffer
run_queue cap w lost pending havedata [] = []
run_queue cap w lost none havedata (delivered got ∷ es) =
    run_queue cap w (refilled got lost) (if ltb 0 got.sz then some got else none) havedata es
run_queue cap w lost (some p) havedata (delivered got ∷ es) =
    run_queue cap w lost (some p) havedata es
run_queue cap w lost none havedata (published ∷ es) = run_queue cap w lost none havedata es
run_queue cap w lost (some got) havedata (published ∷ es) =
    let full = length w + 1 == cap in
    run_queue cap (if full then [] else w ++ got ∷ []) (if full then w ++ got ∷ [] else []) none
      havedata es
run_queue cap w lost pending havedata (tested ∷ es) =
    run_queue cap w lost pending (havedata || ltb 0 (length w)) es
run_queue cap w lost pending false (taken ∷ es) = run_queue cap w lost pending false es
run_queue cap (x ∷ w) lost pending true (taken ∷ es) = x ∷ run_queue cap w [] pending false es
run_queue cap [] (x ∷ lost) pending true (taken ∷ es) = x ∷ run_queue cap lost [] pending false es
run_queue cap [] [] pending true (taken ∷ es) = run_queue cap [] [] pending false es

-- the lost packets are in the ring, the first where the consumer stands
abbrev IsLost : Queue → List PacketBuffer → Type 0
IsLost q [] = Unit
IsLost q (x ∷ lost) =
    (backlog q ≡ 0)
    × (get_or q.buffer q.rpos no_packet ≡ x)
    × (slots q.buffer q.sz (advance q.sz q.rpos) (q.sz - 1) ≡ lost)

-- the packet that is about to be published is in its slot
abbrev IsHeld : Queue → Option PacketBuffer → Type 0
IsHeld q none = Unit
IsHeld q (some got) =
    let slot = get_or q.buffer q.wpos no_packet in (slot.pkt ≡ got.pkt) × (slot.addr ≡ got.addr)

-- a consumer that tested has a packet to take
abbrev HasPacket : Bool → (w lost : List PacketBuffer) → Type 0
HasPacket false w lost = Unit
HasPacket true w lost = 0 < length w + length lost

advance-lt : (sz pos : ℕ) → pos < sz → advance sz pos < sz
advance-lt sz pos h = ground arith

-- `sz - 1` steps from the next slot on lead back.
once_round : (sz pos i : ℕ) → pos < sz → pos ≡ i → i ≡ around sz (advance sz pos) (sz - 1)
once_round sz pos i h e = ground arith

module _ (q : Queue) (v : IsValid q) where
  fill_slot-contents : (got : PacketBuffer) → contents (fill_slot q got) ≡ contents q
  fill_slot-contents got =
      let (at, small) = wpos-around v in
      slots-set q.buffer q.sz q.rpos (backlog q) q.wpos _ v.read_in small at

  fill_slot-IsValid : (got : PacketBuffer) → IsValid (fill_slot q got)
  fill_slot-IsValid got = record {
    storage = length-set q.buffer q.wpos _ ∙ v.storage;
    read_in = v.read_in;
    write_in = v.write_in;
  }

  fill_slot-IsHeld : (got : PacketBuffer) → IsHeld (fill_slot q got) (some got)
  fill_slot-IsHeld got =
      let stored =
        get_or-set_self q.buffer q.wpos
          (record (get_or q.buffer q.wpos no_packet) { pkt = got.pkt; addr = got.addr }) no_packet
          (omega (arith, v.storage, v.write_in)) in
      (ap (λ b. b.pkt) stored, ap (λ b. b.addr) stored)

  fill_slot-IsLost :
      (got : PacketBuffer) (lost : List PacketBuffer)
      → IsLost q lost
      → IsLost (fill_slot q got) (refilled got lost)
  fill_slot-IsLost got [] l = tt
  fill_slot-IsLost got (x ∷ lost) (idle, first, others) =
      let same : q.rpos ≡ q.wpos = ground (arith, v.read_in, v.write_in) in
      let b = record (get_or q.buffer q.wpos no_packet) { pkt = got.pkt; addr = got.addr } in
      (
        idle,
        ap (λ i. get_or (set q.buffer q.wpos b) i no_packet) same
            ∙ get_or-set_self q.buffer q.wpos b no_packet (omega (arith, v.storage, v.write_in))
            ∙ ap (λ i. record (get_or q.buffer i no_packet) { pkt = got.pkt; addr = got.addr })
                (sym same)
            ∙ ap (λ (y : PacketBuffer). record y { pkt = got.pkt; addr = got.addr }) first,
        slots-set q.buffer q.sz (advance q.sz q.rpos) (q.sz - 1) q.wpos b
              (advance-lt q.sz q.rpos v.read_in) (omega (arith, v.read_in))
              (once_round q.sz q.rpos q.wpos v.read_in same)
            ∙ others,
      )

  -- the ring behind the packet that is published
  publish-Received :
      (got : PacketBuffer)
      → IsHeld q (some got)
      → Received q got (count_crowded (publish q got.sz)).1
  publish-Received got (pkt, addr) =
      let (buffer, sz, rpos, wpos) = count_crowded_fields (publish q got.sz) in
      let slot : ◌≡◌ {A = PacketBuffer} (record (get_or q.buffer q.wpos no_packet) { sz = got.sz })
          got =
        ap₂ (λ p a. record { pkt = p; addr = a; sz = got.sz }) pkt addr in
      record { buffer = buffer ∙ ap (set q.buffer q.wpos) slot; sz = sz; rpos = rpos; wpos = wpos }

  Received-IsValid : {got : PacketBuffer} (r : Queue) → Received q got r → IsValid r
  Received-IsValid {got} r e = record {
    storage = ap length e.buffer ∙ length-set q.buffer q.wpos got ∙ v.storage ∙ sym e.sz;
    read_in = omega (arith, v.read_in, e.sz, e.rpos);
    write_in = ground (arith, v.write_in, e.sz, e.wpos);
  }

  -- a full ring, from the consumer's slot on
  IsLost-slots :
      (lost : List PacketBuffer)
      → backlog q ≡ 0
      → slots q.buffer q.sz q.rpos q.sz ≡ lost
      → IsLost q lost
  IsLost-slots [] idle all = tt
  IsLost-slots (x ∷ lost) idle all =
      let cut = sym (slots_ne_zero q.buffer q.sz q.rpos q.sz (omega (arith, v.read_in))) ∙ all in
      (idle, ap (λ l. get_or l 0 no_packet) cut, ap (λ l. drop 1 l) cut)

  taken-IsValid : IsValid (take_packet q).1
  taken-IsValid = record {
    storage = v.storage;
    read_in = advance-lt q.sz q.rpos v.read_in;
    write_in = v.write_in;
  }

  taken-contents :
      (q.rpos == q.wpos) ≡ false
      → contents q ≡ get_or q.buffer q.rpos no_packet ∷ contents (take_packet q).1
  taken-contents e =
      let left : backlog q - 1 ≡ backlog (take_packet q).1 =
        ground (arith, v.read_in, v.write_in) in
      let some_wait : backlog q ≢ 0 = ground (arith, v.read_in, v.write_in) in
      slots_ne_zero q.buffer q.sz q.rpos (backlog q) some_wait
      ∙ ap (λ n. get_or q.buffer q.rpos no_packet ∷ slots q.buffer q.sz (advance q.sz q.rpos) n)
          left

busy : (q : Queue) (n : ℕ) → backlog q ≡ suc n → (q.rpos == q.wpos) ≡ false
busy q n e = ground arith

-- A packet that is taken from a ring that overran leaves all the others.
taken-full : (q : Queue) → IsValid q → backlog q ≡ 0 → backlog (take_packet q).1 ≡ q.sz - 1
taken-full q v idle = ground (arith, v.read_in, v.write_in)

-- The packet that makes the ring overrun leaves all of them in it.
overrun-IsLost :
    (q : Queue) (v : IsValid q) (got : PacketBuffer) (r : Queue)
    → Received q got r
    → (length (contents q) + 1 == q.sz) ≡ true
    → IsLost r (contents q ++ got ∷ [])
overrun-IsLost q v got r e full =
    let size : q.sz ≡ backlog q + 1 = ground (arith, length-contents q) in
    let empty : (backlog q + 1 == q.sz) ≡ true = ground arith in
    let idle : backlog r ≡ 0 = backlog-Received v e ∙ rw empty refl in
    IsLost-slots r (Received-IsValid q v r e) (contents q ++ got ∷ []) idle (
      ap (λ b. slots b r.sz r.rpos r.sz) e.buffer
      ∙ ap₂ (λ n p. slots (set q.buffer q.wpos got) n p n) e.sz e.rpos
      ∙ ap (slots (set q.buffer q.wpos got) q.sz q.rpos) size
      ∙ stored_slots q got v)

-- What is published waits, or makes the ring overrun.
published-IsLost :
    (q : Queue) (v : IsValid q) (got : PacketBuffer) (r : Queue)
    → Received q got r
    → IsLost r (if length (contents q) + 1 == q.sz then contents q ++ got ∷ [] else [])
published-IsLost q v got r e = elim (Bool-cases (length (contents q) + 1 == q.sz)) [
  | inl k ↦ rw k (overrun-IsLost q v got r e k)
  | inr k ↦ rw k tt
]

published-HasPacket :
    (havedata full : Bool) (w : List PacketBuffer) (got : PacketBuffer)
    → HasPacket havedata (if full then [] else w ++ got ∷ []) (if full then w ++ got ∷ [] else [])
published-HasPacket false full w got = tt
published-HasPacket true true w got = omega (arith, length-append w (got ∷ []))
published-HasPacket true false w got = omega (arith, length-append w (got ∷ []))

refilled-HasPacket :
    (havedata : Bool) (w lost : List PacketBuffer) (got : PacketBuffer)
    → HasPacket havedata w lost
    → HasPacket havedata w (refilled got lost)
refilled-HasPacket false w lost got h = tt
refilled-HasPacket true w [] got h = h
refilled-HasPacket true w (x ∷ lost) got h = h

tested-HasPacket :
    (havedata : Bool) (w lost : List PacketBuffer)
    → HasPacket havedata w lost
    → HasPacket (havedata || ltb 0 (length w)) w lost
tested-HasPacket true w lost h = h
tested-HasPacket false [] lost h = tt
tested-HasPacket false (x ∷ w) lost h = ground arith

has_data-length : (q : Queue) → IsValid q → has_data q ≡ ltb 0 (length (contents q))
has_data-length q v = ground (arith, length-contents q, v.read_in, v.write_in)

run_agrees :
    (es : List Event) (q : Queue) (w lost : List PacketBuffer) (pending : Option PacketBuffer)
    (havedata : Bool)
    → IsValid q
    → contents q ≡ w
    → IsLost q lost
    → IsHeld q pending
    → HasPacket havedata w lost
    → run q pending havedata es ≡ run_queue q.sz w lost pending havedata es
unfolding run run_queue
run_agrees [] q w lost pending havedata v c l h p = refl
run_agrees (delivered got ∷ es) q w lost none havedata v c l h p =
    let q' = fill_slot q got in
    run_agrees es q' w (refilled got lost) (if ltb 0 got.sz then some got else none) havedata
      (fill_slot-IsValid q v got) (fill_slot-contents q v got ∙ c) (fill_slot-IsLost q v got lost l)
      (elim (Bool-cases (ltb 0 got.sz)) [
        | inl k ↦ rw k (fill_slot-IsHeld q v got)
        | inr k ↦ rw k tt
      ])
      (refilled-HasPacket havedata w lost got p)
run_agrees (delivered got ∷ es) q w lost (some x) havedata v c l h p =
    run_agrees es q w lost (some x) havedata v c l h p
run_agrees (published ∷ es) q w lost none havedata v c l h p =
    run_agrees es q w lost none havedata v c l h p
run_agrees (published ∷ es) q w lost (some got) havedata v c l h p =
    let r = (count_crowded (publish q got.sz)).1 in
    let e = publish-Received q v got h in
    let full = length w + 1 == q.sz in
    let w' = if full then [] else w ++ got ∷ [] in
    let lost' = if full then w ++ got ∷ [] else [] in
    run_agrees es r w' lost' none havedata (Received-IsValid q v r e)
      (contents-Received v e ∙ ap (λ u. if length u + 1 == q.sz then [] else u ++ got ∷ []) c)
      (subst (λ u. IsLost r (if length u + 1 == q.sz then u ++ got ∷ [] else [])) c
        (published-IsLost q v got r e))
      tt (published-HasPacket havedata full w got)
    ∙ ap (λ n. run_queue n w' lost' none havedata es) e.sz
run_agrees (tested ∷ es) q w lost pending havedata v c l h p =
    let found : has_data q ≡ ltb 0 (length w) =
      has_data-length q v ∙ ap (λ u. ltb 0 (length u)) c in
    ap (λ b. run q pending (havedata || b) es) found
    ∙ run_agrees es q w lost pending (havedata || ltb 0 (length w)) v c l h
        (tested-HasPacket havedata w lost p)
run_agrees (taken ∷ es) q w lost pending false v c l h p =
    run_agrees es q w lost pending false v c l h p
run_agrees (taken ∷ es) q [] [] pending true v c l h p = absurd (omega arith)
run_agrees (taken ∷ es) q (x ∷ w) lost pending true v c l h p =
    let count : backlog q ≡ suc (length w) = sym (length-contents q) ∙ ap length c in
    let cut = sym (taken-contents q v (busy q (length w) count)) ∙ c in
    ap₂ ◌∷◌ (ap (λ u. get_or u 0 no_packet) cut) (
      run_agrees es (take_packet q).1 w [] pending false (taken-IsValid q v)
        (ap (λ u. drop 1 u) cut) tt h tt)
run_agrees (taken ∷ es) q [] (x ∷ lost) pending true v c (idle, first, others) h p = ap₂ ◌∷◌ first (
    run_agrees es (take_packet q).1 lost [] pending false (taken-IsValid q v)
      (ap (slots q.buffer q.sz (advance q.sz q.rpos)) (taken-full q v idle) ∙ others) tt h tt)

-- From a ring whose two threads are between calls, whatever the order of their steps, the consumer
-- is handed what waits and what is published, in that order, except that a packet that fills the
-- ring loses all that wait, itself too. A consumer that tested before that, and takes before another
-- packet is published, is handed the first of them, with what `recv` wrote over it meanwhile, and
-- the others wait again. The test and the taking are two steps, and so are the filling of a slot
-- and its publishing.
pub run_refines :
    (q : Queue) (es : List Event)
    → IsValid q
    → run q none false es ≡ run_queue q.sz (contents q) [] none false es
run_refines q es v = run_agrees es q (contents q) [] none false v refl tt tt tt
