-- ===== src/Ioport/Uuids/RoundTrip.antt =====
-- `ioport_write_uuid` and `ioport_read_uuid` over any sink and source.
use native.Mathlib.Nat.{mul-div_cancel, div-div-eq-div-mul}
use opticon.Prelude.{
  ℕ, ◌+◌, ◌*◌, ◌/◌, ◌%◌, ◌^◌, ◌<◌, ◌≡◌, sym, ap, ap₂, ◌∙◌, bit_or, Option, some, List, [], ◌++◌,
  arith,
}
use opticon.Prelude.Bits.{two_pow_pos, bit_or-add, bit_and_ones, bit_and_shifted}
use opticon.Uuid.{Uuid}
use opticon.Ioport.{Methods, IoPort, read}
use opticon.Ioport.Stream.{Sink, Source, two_pow-add}
use opticon.Ioport.Flush.{IsIdle, write_lem}
use opticon.Ioport.Uuids.{octet, octets, word_at, uuid_or_nil, write_uuid, read_uuid}

pub octet_lem : (x k : ℕ) → octet x k ≡ x / 2 ^ k % 256
octet_lem x k =
    ap (λ (t : ℕ). t / 2 ^ k)
      (bit_and_shifted k x 0xff ∙ ap (λ (t : ℕ). t * 2 ^ k) (bit_and_ones 8 (x / 2 ^ k)))
    ∙ mul-div_cancel (x / 2 ^ k % 256) (two_pow_pos k)

below : (r m : ℕ) → r < 256 → 0 < m → r * m < 256 * m
below r m h k = grind arith

wide : (k : ℕ) → 2 ^ (k + 8) ≡ 256 * 2 ^ k
wide k = omega (arith, two_pow-add k 8)

-- one byte more
pub bit_or-octet :
    (x k : ℕ) → bit_or (x / 2 ^ (k + 8) * 2 ^ (k + 8)) (octet x k * 2 ^ k) ≡ x / 2 ^ k * 2 ^ k
bit_or-octet x k =
    let y = x / 2 ^ k in
    let m = 2 ^ k in
    let small : y % 256 * m < 2 ^ (k + 8) =
      rw (wide k) (below (y % 256) m (omega arith) (two_pow_pos k)) in
    let commuted : 2 ^ 8 * m ≡ m * 256 = omega arith in
    let top : x / 2 ^ (k + 8) ≡ y / 256 =
      ap (λ (t : ℕ). x / t) (two_pow-add k 8 ∙ commuted) ∙ sym (div-div-eq-div-mul x m 256) in
    ap (λ (t : ℕ). bit_or (x / 2 ^ (k + 8) * 2 ^ (k + 8)) (t * m)) (octet_lem x k)
    ∙ bit_or-add (k + 8) (x / 2 ^ (k + 8)) (y % 256 * m) small
    ∙ rw (top, wide k) (regroup y m)
  where
    regroup : (y m : ℕ) → y / 256 * (256 * m) + y % 256 * m ≡ y * m
    regroup y m =
        let parts : y / 256 * 256 + y % 256 ≡ y = omega arith in
        omega (arith, ap (λ (t : ℕ). t * m) parts)

pub word_lem : (x : ℕ) (rest : List ℕ) → x < 2 ^ 64 → word_at (octets x ++ rest) 0 ≡ x
word_lem x rest h =
    let first : octet x 56 * 2 ^ 56 ≡ x / 2 ^ 56 * 2 ^ 56 = omega (arith, octet_lem x 56) in
    let last : bit_or (x / 2 ^ 8 * 2 ^ 8) (octet x 0) ≡ x =
      ap (λ (t : ℕ). bit_or (x / 2 ^ 8 * 2 ^ 8) t) (omega arith) ∙ bit_or-octet x 0 ∙ omega arith in
    rw
      (
        first,
        bit_or-octet x 48,
        bit_or-octet x 40,
        bit_or-octet x 32,
        bit_or-octet x 24,
        bit_or-octet x 16,
        bit_or-octet x 8,
      )
      last

module _ {S : Type 0} (m : Methods S) where
  pub write_uuid_lem :
      (k : Sink m) (io : IoPort S) (u : Uuid)
      → IsIdle m k io
      → (io' : IoPort S) × (write_uuid m io u ≡ some io')
        × IsIdle m k io'
        × (k.sent io'.storage ≡ k.sent io.storage ++ (octets u.msb ++ octets u.lsb))
  unfolding write_uuid
  write_uuid_lem k io u i = write_lem m k io (octets u.msb ++ octets u.lsb) i

  pub read_uuid_lem :
      (k : Source m) (io : IoPort S) (u : Uuid) (rest : List ℕ)
      → k.Ready io.storage
      → k.pending io.storage ≡ (octets u.msb ++ octets u.lsb) ++ rest
      → u.msb < 2 ^ 64
      → u.lsb < 2 ^ 64
      → (io' : IoPort S) × (read_uuid m io ≡ (u, io'))
        × k.Ready io'.storage
        × (k.pending io'.storage ≡ rest)
  unfolding read_uuid read
  read_uuid_lem k io u rest ready view h h' =
      let (s', got, ready', left) =
        k.read_ok io.storage (octets u.msb ++ octets u.lsb) rest ready view in
      let io' : IoPort S = record { storage = s'; bitpos = 0; bitbuffer = 0 } in
      let joined : word_at (octets u.msb ++ octets u.lsb) 0 ≡ u.msb =
        word_lem u.msb (octets u.lsb) h in
      let joined' : word_at (octets u.msb ++ octets u.lsb) 8 ≡ u.lsb = word_lem u.lsb [] h' in
      let pair : ℕ → ℕ → Uuid × IoPort S = λ a b. (record { msb = a; lsb = b }, io') in
      (
        io',
        ap
              (λ (r : Option (List ℕ) × S).
                uuid_or_nil (r.0, record { storage = r.1; bitpos = 0; bitbuffer = 0 }))
              got
            ∙ ap₂ pair joined joined',
        ready',
        left,
      )
