-- ===== src/Ioport/Uuids/Words.antt =====
-- Words of 64 and 32 bits over any sink and source.
use opticon.Prelude.{
  none, ℕ, ◌*◌, ◌/◌, ◌^◌, ◌<◌, ◌≡◌, ap, ◌∙◌, bit_or, Option, some, List, [], ◌++◌, arith,
}
use opticon.Ioport.{Methods, IoPort, read}
use opticon.Ioport.Stream.{Sink, Source}
use opticon.Ioport.Flush.{IsIdle, write_lem}
use opticon.Ioport.Uuids.{
  octet, octets, word_at, octets_32, word_32, word_or_zero, write_u64, write_u32, read_u64,
  read_u32,
}
use opticon.Ioport.Uuids.RoundTrip.{octet_lem, bit_or-octet, word_lem}

word_32_lem : (x : ℕ) → x < 2 ^ 32 → word_32 (octets_32 x) ≡ x
word_32_lem x h =
    let first : octet x 24 * 2 ^ 24 ≡ x / 2 ^ 24 * 2 ^ 24 = omega (arith, octet_lem x 24) in
    let last : bit_or (x / 2 ^ 8 * 2 ^ 8) (octet x 0) ≡ x =
      ap (λ (t : ℕ). bit_or (x / 2 ^ 8 * 2 ^ 8) t) (omega arith) ∙ bit_or-octet x 0 ∙ omega arith in
    rw (first, bit_or-octet x 16, bit_or-octet x 8) last

-- A source that serves the bytes of a word gives it back and is left behind them.
pub read_u64_lem :
    {S : Type 0} (m : Methods S) (source : Source m) (io : IoPort S) (i : ℕ) (rest : List ℕ)
    → i < 2 ^ 64
    → source.Ready io.storage
    → source.pending io.storage ≡ octets i ++ rest
    → (back : IoPort S) × (read_u64 m io ≡ (i, back))
      × source.Ready back.storage
      × (source.pending back.storage ≡ rest)
unfolding read_u64 read
read_u64_lem {S} m source io i rest h ready view =
    let (s', got, ready', left) = source.read_ok io.storage (octets i) rest ready view in
    let back : IoPort S = record { storage = s'; bitpos = 0; bitbuffer = 0 } in
    (
      back,
      ap
            (λ (r : Option (List ℕ) × S).
              word_or_zero (λ dt. word_at dt 0)
                (r.0, record { storage = r.1; bitpos = 0; bitbuffer = 0 }))
            got
          ∙ ap (λ (t : ℕ). (t, back)) (word_lem i [] h),
      ready',
      left,
    )

-- Where the read fails, the word is 0.
pub read_u64-end :
    {S : Type 0} (m : Methods S) (io : IoPort S) (s : S)
    → m.read io.storage 8 ≡ (none, s)
    → (read_u64 m io).0 ≡ 0
unfolding read_u64 read
read_u64-end {S} m io s failed =
    ap
      (λ (r : Option (List ℕ) × S).
        (word_or_zero (λ dt. word_at dt 0)
          (r.0, record { storage = r.1; bitpos = 0; bitbuffer = 0 })).0)
      failed

module _ {S : Type 0} (m : Methods S) (sink : Sink m) (source : Source m) (io : IoPort S)
    (idle : IsIdle m sink io) (i : ℕ) where
  -- A 64-bit word is sent as eight bytes, and a source that serves these gives the word back and
  -- is left behind them.
  pub read_u64-write_u64 :
      (io' : IoPort S) (rest : List ℕ)
      → i < 2 ^ 64
      → source.Ready io'.storage
      → source.pending io'.storage ≡ octets i ++ rest
      → (sent : IoPort S) × (back : IoPort S) × (write_u64 m io i ≡ some sent)
        × (sink.sent sent.storage ≡ sink.sent io.storage ++ octets i)
        × (read_u64 m io' ≡ (i, back))
        × source.Ready back.storage
        × (source.pending back.storage ≡ rest)
  unfolding write_u64
  read_u64-write_u64 io' rest h ready view =
      let (sent, done, _, bytes) = write_lem m sink io (octets i) idle in
      let (back, got, ready', left) = read_u64_lem m source io' i rest h ready view in
      (sent, back, done, bytes, got, ready', left)

  -- A 32-bit word is sent as four bytes, and a source that serves these gives the word back and is
  -- left behind them.
  pub read_u32-write_u32 :
      (io' : IoPort S) (rest : List ℕ)
      → i < 2 ^ 32
      → source.Ready io'.storage
      → source.pending io'.storage ≡ octets_32 i ++ rest
      → (sent : IoPort S) × (back : IoPort S) × (write_u32 m io i ≡ some sent)
        × (sink.sent sent.storage ≡ sink.sent io.storage ++ octets_32 i)
        × (read_u32 m io' ≡ (i, back))
        × source.Ready back.storage
        × (source.pending back.storage ≡ rest)
  unfolding write_u32 read_u32 read
  read_u32-write_u32 io' rest h ready view =
      let (sent, done, _, bytes) = write_lem m sink io (octets_32 i) idle in
      let (s', got, ready', left) = source.read_ok io'.storage (octets_32 i) rest ready view in
      let back : IoPort S = record { storage = s'; bitpos = 0; bitbuffer = 0 } in
      (
        sent,
        back,
        done,
        bytes,
        ap
              (λ (r : Option (List ℕ) × S).
                word_or_zero word_32 (r.0, record { storage = r.1; bitpos = 0; bitbuffer = 0 }))
              got
            ∙ ap (λ (t : ℕ). (t, back)) (word_32_lem i h),
        ready',
        left,
      )
