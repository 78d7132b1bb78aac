-- ===== src/Ioport/BitWriter.antt =====
-- `ioport_write_bits` over a sink: each call appends bits to one stream.
use opticon.Prelude.{
  ℕ, zero, suc, ◌+◌, ◌-◌, ◌*◌, ◌/◌, ◌%◌, ◌^◌, ◌<◌, ◌≤◌, ◌≡◌, sym, ap, ap₂, ◌∙◌, bit_or, some, List,
  [], ◌∷◌, ◌++◌, append_assoc, append-nil, arith, ltb, ◌==◌, if◌then◌else◌, dec_lt, lt→ltb, none,
  false, true,
}
use opticon.Ioport.{Methods, IoPort, to_u8, write_bits}
use opticon.Ioport.Stream.{
  Sink, low_bits_mod, low_bits-add, low_bits, byte_bits, byte_bits-snoc, low_bits_join,
}
use opticon.Prelude.Bits.{two_pow_pos}
use native.Mathlib.Nat.{mul-div_cancel, mul-mod_left}
use opticon.Ioport.Fields.{bit_and-bitmask, byte_append, to_u8_shift}

-- the bits that wait after a byte went out, at the top of the next
abbrev left_over : ℕ → ℕ → ℕ
left_over d b = to_u8 (d % 2 ^ b * 2 ^ (8 - b))

left_over_if : (d b : ℕ) → (if b == 0 then 0 else left_over d b) ≡ left_over d b
left_over_if d zero = omega arith
left_over_if d (suc b) = let e : (suc b == 0) ≡ false = ground arith in rw e

left_over_shift :
    (d b : ℕ)
    → b ≤ 8
    → (left_over d b / 2 ^ (8 - b) ≡ d % 2 ^ b) × (left_over d b % 2 ^ (8 - b) ≡ 0)
left_over_shift d b h =
    let (same, _) = to_u8_shift d b (8 - b) (omega arith) in
    rw same
      (mul-div_cancel (d % 2 ^ b) (two_pow_pos (8 - b)), mul-mod_left (d % 2 ^ b) (2 ^ (8 - b)))

-- The byte that goes out and the bits that wait are the old bits and the new ones.
across_bits :
    (p a b buf d : ℕ)
    → p + a ≡ 8
    → b ≤ 8
    → buf < 256
    → buf % 2 ^ a ≡ 0
    → low_bits 8 (bit_or buf (to_u8 (d / 2 ^ b % 2 ^ a * 2 ^ 0)))
        ++ low_bits b (left_over d b / 2 ^ (8 - b))
      ≡ low_bits p (buf / 2 ^ a) ++ low_bits (a + b) d
across_bits p a b buf d e hb small clear =
    let x = d / 2 ^ b in
    let y = bit_or buf (to_u8 (x % 2 ^ a * 2 ^ 0)) in
    let flat : a + 0 ≡ a = omega arith in
    let (high, _, _) = byte_append p a 0 buf x (omega arith) small (rw flat clear) in
    let value : y ≡ buf / 2 ^ a * 2 ^ a + x % 2 ^ a =
      omega (arith, high, ap (λ (t : ℕ). buf / 2 ^ t * 2 ^ a) flat) in
    let out : low_bits 8 y ≡ low_bits p (buf / 2 ^ a) ++ low_bits a x =
      ap₂ low_bits (sym e) value ∙ low_bits_join p a (buf / 2 ^ a) x in
    let wait : low_bits b (left_over d b / 2 ^ (8 - b)) ≡ low_bits b d =
      ap (low_bits b) (left_over_shift d b hb).0 ∙ sym (low_bits_mod b d) in
    ap₂ ◌++◌ out wait
    ∙ append_assoc (low_bits p (buf / 2 ^ a)) (low_bits a x) (low_bits b d)
    ∙ ap (λ t. low_bits p (buf / 2 ^ a) ++ t) (sym (low_bits-add a b d))

module _ {S : Type 0} (m : Methods S) (k : Sink m) where
  open k use {Ready, sent, write_ok}

  -- A port between two calls: fewer than eight bits wait, at the top of the byte.
  pub record IsOpen (io : IoPort S) : Type 0 where
    pub ready : Ready io.storage
    pub partial : io.bitpos < 8
    pub clear : io.bitbuffer % 2 ^ (8 - io.bitpos) ≡ 0
    pub byte : io.bitbuffer < 256

  -- every bit that was written: those in the storage, and those that wait
  unfoldable pub bits_sent : IoPort S → List ℕ
  bits_sent io =
      byte_bits (sent io.storage) ++ low_bits io.bitpos (io.bitbuffer / 2 ^ (8 - io.bitpos))

  -- The bits fit the byte at hand.
  write_bits_within :
      (io : IoPort S) (d n : ℕ)
      → IsOpen io
      → io.bitpos + n < 8
      → (io' : IoPort S) × (write_bits m io d n ≡ some io')
        × IsOpen io'
        × (bits_sent io' ≡ bits_sent io ++ low_bits n d)
        × (more : List ℕ) × (sent io'.storage ≡ sent io.storage ++ more)
  unfolding write_bits bits_sent
  write_bits_within io d n o room =
      let front = byte_bits (sent io.storage) in
      let p = io.bitpos in
      let s = 8 - p - n in
      let y = bit_or io.bitbuffer (to_u8 (d % 2 ^ n * 2 ^ s)) in
      let io' = record io { bitpos = p + n; bitbuffer = y } in
      let gap : 8 - p ≡ n + s = omega arith in
      let left : 8 - (p + n) ≡ s = omega arith in
      let (high, low, small) =
        byte_append p n s io.bitbuffer d (omega arith) o.byte (rw gap at o.clear) in
      let fits : ltb (p + n) 8 ≡ true = ground arith in
      let none_over : n - n ≡ 0 = omega arith in
      let unshifted : d / 1 ≡ d = omega arith in
      let waits : ltb 7 (p + n) ≡ false = ground arith in
      let few : ltb 8 n ≡ false = ground arith in
      (
        io',
        rw (fits, none_over, unshifted, bit_and-bitmask d n (omega arith), waits, few),
        record { ready = o.ready; partial = room; clear = rw left low; byte = small },
        rw (left, high)
            (ap (λ t. front ++ t)
                (low_bits_join p n (io.bitbuffer / 2 ^ (n + s)) d
                  ∙ ap (λ (g : ℕ). low_bits p (io.bitbuffer / 2 ^ g) ++ low_bits n d) (sym gap))
              ∙ sym (append_assoc front (low_bits p (io.bitbuffer / 2 ^ (8 - p))) (low_bits n d))),
        [],
        sym (append-nil (sent io.storage)),
      )

  -- The bits fill the byte at hand: it goes out, and the rest waits.
  write_bits_across :
      (io : IoPort S) (d n : ℕ)
      → IsOpen io
      → n ≤ 8
      → 8 ≤ io.bitpos + n
      → (io' : IoPort S) × (write_bits m io d n ≡ some io')
        × IsOpen io'
        × (bits_sent io' ≡ bits_sent io ++ low_bits n d)
        × (more : List ℕ) × (sent io'.storage ≡ sent io.storage ++ more)
  unfolding write_bits bits_sent
  write_bits_across io d n o most full =
      let front = byte_bits (sent io.storage) in
      let p = io.bitpos in
      let a = 8 - p in
      let b = n - a in
      let x = d / 2 ^ b in
      let y = bit_or io.bitbuffer (to_u8 (x % 2 ^ a * 2 ^ 0)) in
      let (s', went, ready, sent') = write_ok io.storage (y ∷ []) o.ready in
      let over : ltb (p + n) 8 ≡ false = ground arith in
      let no_shift : a - a ≡ 0 = omega arith in
      let out : ltb 7 (p + a) ≡ true = ground arith in
      let few : ltb 8 n ≡ false = ground arith in
      let wait = low_bits b (left_over d b / 2 ^ (8 - b)) in
      let sum : a + b ≡ n = omega arith in
      (
        record { storage = s'; bitpos = b; bitbuffer = left_over d b },
        rw
            (
              over,
              no_shift,
              bit_and-bitmask x a (omega arith),
              bit_and-bitmask d b (omega arith),
              out,
              few,
              went,
            )
            (ap (λ v. some (record { storage = s'; bitpos = b; bitbuffer = v }))
              (left_over_if d b)),
        record {
          ready = ready;
          partial = omega arith;
          clear = (left_over_shift d b (omega arith)).1;
          byte = omega arith;
        },
        ap (λ t. byte_bits t ++ wait) sent'
            ∙ ap (λ t. t ++ wait) (byte_bits-snoc (sent io.storage) y)
            ∙ append_assoc front (low_bits 8 y) wait
            ∙ ap (λ t. front ++ t)
                (across_bits p a b io.bitbuffer d (omega arith) (omega arith) o.byte o.clear)
            ∙ sym (append_assoc front (low_bits p (io.bitbuffer / 2 ^ a)) (low_bits (a + b) d))
            ∙ ap (λ (t : ℕ). bits_sent io ++ low_bits t d) sum,
        y ∷ [],
        sent',
      )

  -- `ioport_write_bits` of up to eight bits succeeds and appends them to the stream of bits, the
  -- highest bit of the number and of each byte first.
  pub write_bits_lem :
      (io : IoPort S) (d n : ℕ)
      → IsOpen io
      → n ≤ 8
      → (io' : IoPort S) × (write_bits m io d n ≡ some io')
        × IsOpen io'
        × (bits_sent io' ≡ bits_sent io ++ low_bits n d)
        × (more : List ℕ) × (sent io'.storage ≡ sent io.storage ++ more)
  write_bits_lem io d n o h = elim (dec_lt (io.bitpos + n) 8) [
    | yes room ↦ write_bits_within io d n o room
    | no full ↦ write_bits_across io d n o h (omega arith)
  ]

  -- More than eight bits are refused.
  pub write_bits_many : (io : IoPort S) (d n : ℕ) → 8 < n → write_bits m io d n ≡ none
  unfolding write_bits
  write_bits_many io d n h = rw (lt→ltb 8 n h)
