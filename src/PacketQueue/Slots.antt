-- ===== src/PacketQueue/Slots.antt =====
-- The packets that wait in the ring, as a list, and what a round of the producer makes of it.
use opticon.Prelude.{
  ℕ, zero, suc, ◌+◌, ◌-◌, ◌<◌, ◌≡◌, refl, ap, ap₂, sym, ◌∙◌, Bool-cases, inl, inr, ℕ_discrete, List,
  [], ◌∷◌, ◌++◌, arith, ltb, ◌==◌, if◌then◌else◌, length, get_or, set, length-set, get_or-set_self,
  get_or-set_ne, lt→ltb,
}
use native.Mathlib.Numerals.{add-one}
use opticon.PacketQueue.{
  PacketBuffer, no_packet, Queue, zeroes, create, advance, backlog, fill_slot, publish,
  count_crowded, receive,
}

pub record IsValid (q : Queue) : Type 0 where
  pub storage : length q.buffer ≡ q.sz
  pub read_in : q.rpos < q.sz
  pub write_in : q.wpos < q.sz

length-zeroes : (n : ℕ) → length (zeroes n) ≡ n
length-zeroes zero = refl
length-zeroes (suc n) = ap suc (length-zeroes n)

-- `n` steps round the ring from `pos`
abbrev pub around : ℕ → ℕ → ℕ → ℕ
around sz pos n = if ltb (pos + n) sz then pos + n else pos + n - sz

-- the `n` slots from `pos` on
abbrev pub slots : List PacketBuffer → ℕ → ℕ → ℕ → List PacketBuffer
slots buf sz pos zero = []
slots buf sz pos (suc n) = get_or buf pos no_packet ∷ slots buf sz (advance sz pos) n

-- the packets that wait, oldest first
abbrev pub contents : Queue → List PacketBuffer
contents q = slots q.buffer q.sz q.rpos (backlog q)

length-slots : (buf : List PacketBuffer) (sz pos n : ℕ) → length (slots buf sz pos n) ≡ n
length-slots buf sz pos zero = refl
length-slots buf sz pos (suc n) = ap suc (length-slots buf sz (advance sz pos) n)

pub length-contents : (q : Queue) → length (contents q) ≡ backlog q
length-contents q = length-slots q.buffer q.sz q.rpos (backlog q)

module _ (buf : List PacketBuffer) (sz : ℕ) where
  around-advance :
      (pos n : ℕ) → pos < sz → n < sz → around sz (advance sz pos) n ≡ around sz pos (suc n)
  around-advance pos n hp hn = ground arith

  -- The slot behind `n` slots is not among them.
  pub slots-set :
      (pos n i : ℕ) (v : PacketBuffer)
      → pos < sz
      → n < sz
      → i ≡ around sz pos n
      → slots (set buf i v) sz pos n ≡ slots buf sz pos n
  slots-set pos zero i v hp hn e = refl
  slots-set pos (suc n) i v hp hn e =
      ap₂ ◌∷◌ (get_or-set_ne buf v no_packet (ground arith))
        (slots-set (advance sz pos) n i v (ground arith) (omega arith) (ground arith))

slots-snoc :
    (buf : List PacketBuffer) (sz pos n : ℕ)
    → pos < sz
    → n < sz
    → slots buf sz pos (suc n) ≡ slots buf sz pos n ++ get_or buf (around sz pos n) no_packet ∷ []
slots-snoc buf sz pos zero hp hn = ground arith
slots-snoc buf sz pos (suc n) hp hn =
    let front = slots buf sz (advance sz pos) n in
    ap (λ t. get_or buf pos no_packet ∷ t)
      (slots-snoc buf sz (advance sz pos) n (ground arith) (omega arith)
        ∙ ap (λ i. front ++ get_or buf i no_packet ∷ [])
            (around-advance buf sz pos n hp (omega arith)))

pub create-IsValid : (n : ℕ) → 0 < n → IsValid (create n) × (contents (create n) ≡ [])
unfolding create
create-IsValid n h = (omega (arith, length-zeroes n), refl)

pub set-set :
    (xs : List PacketBuffer) (i : ℕ) (v w : PacketBuffer) → set (set xs i v) i w ≡ set xs i w
set-set [] i v w = refl
set-set (x ∷ xs) zero v w = refl
set-set (x ∷ xs) (suc i) v w = ap (λ t. x ∷ t) (set-set xs i v w)

-- The bookkeeping of warnings touches nothing else.
pub count_crowded_fields :
    (q : Queue)
    → let r = (count_crowded q).1 in
      (r.buffer ≡ q.buffer) × (r.sz ≡ q.sz) × (r.rpos ≡ q.rpos) × (r.wpos ≡ q.wpos)
count_crowded_fields q = ground arith

-- The two writes of a round put the received packet into the slot.
publish_stored :
    (q : Queue) (got : PacketBuffer)
    → q.wpos < length q.buffer
    → (publish (fill_slot q got) got.sz).buffer ≡ set q.buffer q.wpos got
publish_stored q got h =
    rw (get_or-set_self q.buffer q.wpos _ no_packet h) (set-set q.buffer q.wpos _ got)

-- What a round leaves in the four fields that the consumer sees.
pub record Received (q : Queue) (got : PacketBuffer) (r : Queue) : Type 0 where
  pub buffer : r.buffer ≡ set q.buffer q.wpos got
  pub sz : r.sz ≡ q.sz
  pub rpos : r.rpos ≡ q.rpos
  pub wpos : r.wpos ≡ advance q.sz q.wpos

pub receive-Received :
    (q : Queue) (got : PacketBuffer)
    → 0 < got.sz
    → q.wpos < length q.buffer
    → Received q got (receive q got).1
unfolding receive
receive-Received q got pos h =
    let (buffer, sz, rpos, wpos) = count_crowded_fields (publish (fill_slot q got) got.sz) in
    rw (lt→ltb 0 got.sz pos)
      (record { buffer = buffer ∙ publish_stored q got h; sz = sz; rpos = rpos; wpos = wpos })

-- A receive error that returns 0 moves no cursor.
pub receive_zero :
    (q : Queue) (got : PacketBuffer) → got.sz ≡ 0 → (receive q got).1 ≡ fill_slot q got
unfolding receive
receive_zero q got e = ground arith

pub receive-IsValid : {q : Queue} (got : PacketBuffer) → IsValid q → IsValid (receive q got).1
receive-IsValid {q} got v = elim (ℕ_discrete got.sz 0) [
  | yes e ↦ rw (receive_zero q got e) (record {
    storage = length-set q.buffer q.wpos _ ∙ v.storage;
    read_in = v.read_in;
    write_in = v.write_in;
  })
  | no n ↦
      let r = receive-Received q got (omega arith) (omega arith) in
      let kept = length-set q.buffer q.wpos got in
      record {
        storage = ap length r.buffer ∙ kept ∙ v.storage ∙ sym r.sz;
        read_in = omega arith;
        write_in = ground arith;
      }
]

pub wpos-around :
    {q : Queue} → IsValid q → (q.wpos ≡ around q.sz q.rpos (backlog q)) × (backlog q < q.sz)
wpos-around v = ground arith

pub backlog-Received :
    {q r : Queue} {got : PacketBuffer}
    → IsValid q
    → Received q got r
    → backlog r ≡ (if backlog q + 1 == q.sz then 0 else backlog q + 1)
backlog-Received v e = ground arith

pub stored_slots :
    (q : Queue) (got : PacketBuffer)
    → IsValid q
    → slots (set q.buffer q.wpos got) q.sz q.rpos (backlog q + 1) ≡ contents q ++ got ∷ []
stored_slots q got v =
    let (e, small) = wpos-around v in
    let buf = set q.buffer q.wpos got in
    rw add-one (
      slots-snoc buf q.sz q.rpos (backlog q) v.read_in small
      ∙ ap₂ (λ w x. w ++ x ∷ [])
          (slots-set q.buffer q.sz q.rpos (backlog q) q.wpos got v.read_in small e)
          (rw (← e) (get_or-set_self q.buffer q.wpos got no_packet (omega arith))))

pub contents-Received :
    {q r : Queue} {got : PacketBuffer}
    → IsValid q
    → Received q got r
    → contents r ≡ (if length (contents q) + 1 == q.sz then [] else contents q ++ got ∷ [])
contents-Received {q} {r} {got} v e =
    ap₂ (λ b s. slots b s r.rpos (backlog r)) e.buffer e.sz
    ∙ ap₂ (slots (set q.buffer q.wpos got) q.sz) e.rpos (backlog-Received v e)
    ∙ rw (length-contents q) (elim (Bool-cases (backlog q + 1 == q.sz)) [
      | inl full ↦ rw full
      | inr room ↦ rw room (stored_slots q got v)
    ])
