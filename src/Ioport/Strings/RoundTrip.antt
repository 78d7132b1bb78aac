-- ===== src/Ioport/Strings/RoundTrip.antt =====
-- What an encoded string reads back as, over any sink and source.
use opticon.Prelude.{
  ℕ, ◌+◌, ◌-◌, ◌<◌, ◌≤◌, ◌≡◌, refl, sym, ap, ◌∙◌, true, false, some, List, [], ◌∷◌, ◌++◌,
  append_assoc, arith, ltb, ◌==◌, ==_iff, if◌then◌else◌, Option, length, length-append,
  append_split, bit_or, bit_and, every_below, every_below-test, inl, inr, le→ltb,
}
use opticon.Prelude.Bits.{bit_and_ones}
use native.Mathlib.Nat.{mod-eq_of_lt}
use opticon.Ioport.{Methods, IoPort, to_u8, read}
use opticon.Ioport.Stream.{
  Sink, Source, byte_bits, byte_bits-append, length-byte_bits, low_bits, length-low_bits,
}
use opticon.Ioport.BitReader.{IsReading, bits_left, read_byte_lem}
use opticon.Ioport.Flush.{
  IsIdle, IsOpen-of_idle, padding, bits_sent-idle, flush_bits_lem, write_byte_lem, write_lem,
}
use opticon.Ioport.Strings.{any_plain, write_encstring, read_codes, read_encstring}
use opticon.Ioport.Strings.Packing.{
  IsText, any_plain-IsText, packed_bits, write_codes_lem, read_codes_lem,
}

marked_table : every_below (λ n. to_u8 (bit_or n 0x80) == n + 128) 128 ≡ true
unfolding every_below
marked_table = refl

-- `len | 0x80`
pub marked : (n : ℕ) → n < 128 → to_u8 (bit_or n 0x80) ≡ n + 128
marked n h = (==_iff (to_u8 (bit_or n 0x80)) (n + 128)).0 (every_below-test _ 128 marked_table n h)

-- The bytes of an encoded string.
pub data Encoded (str : List ℕ) : List ℕ → Type 0 where
  plain : any_plain str ≡ some true → Encoded str (length str ∷ str)
  packed :
      (bytes pad : List ℕ)
      → IsText str
      → any_plain str ≡ some false
      → byte_bits bytes ≡ packed_bits str ++ pad
      → length pad < 8
      → Encoded str ((length str + 128) ∷ bytes)

length-padding : (p : ℕ) → length (padding p) < 8
length-padding p = ground (arith, length-low_bits (8 - p) 0)

nonempty : (str : List ℕ) → any_plain str ≡ some true → 0 < length str
unfolding any_plain
nonempty [] e = cc
nonempty (c ∷ str) e = omega arith

module _ {S : Type 0} (m : Methods S) where
  -- The bits after a byte boundary are those of the bytes sent since.
  sent_since :
      (k : Sink m) (before more bits : List ℕ)
      → byte_bits (before ++ more) ≡ byte_bits before ++ bits
      → byte_bits more ≡ bits
  sent_since k before more bits e =
      (append_split (byte_bits before) (byte_bits before) (byte_bits more) bits refl
        (sym (byte_bits-append before more) ∙ e)).1

  -- `ioport_write_encstring` of a text of at most 127 characters sends an encoding
  -- of it.
  pub write_encstring-Encoded :
      (k : Sink m) (io : IoPort S) (str : List ℕ)
      → IsIdle m k io
      → length str ≤ 127
      → IsText str
      → (io' : IoPort S) × (write_encstring m io str ≡ some io')
        × IsIdle m k io'
        × (code : List ℕ) × Encoded str code
        × (k.sent io'.storage ≡ k.sent io.storage ++ code)
  unfolding write_encstring
  write_encstring-Encoded k io str i h text = elim (any_plain-IsText str text) [
    | inl e ↦
        let (io₁, done₁, idle₁, sent₁) = write_byte_lem m k io (length str) i in
        let (io₂, done₂, idle₂, sent₂) = write_lem m k io₁ str idle₁ in
        (
          io₂,
          rw (le→ltb 127 (length str) h, e, done₁, done₂),
          idle₂,
          length str ∷ str,
          plain e,
          sent₂
              ∙ ap (λ t. t ++ str) sent₁
              ∙ append_assoc (k.sent io.storage) (to_u8 (length str) ∷ []) str
              ∙ ap (λ n. k.sent io.storage ++ n ∷ str) (mod-eq_of_lt (omega arith)),
        )
    | inr e ↦
        let (io₁, done₁, idle₁, sent₁) = write_byte_lem m k io (bit_or (length str) 0x80) i in
        let (io₂, done₂, open₂, bits₂, more₂, sent₂) =
          write_codes_lem m k io₁ str (IsOpen-of_idle m k io₁ idle₁) in
        let (io₃, done₃, idle₃, bits₃, more₃, sent₃) = flush_bits_lem m k io₂ open₂ in
        let grown =
          sent₃ ∙ ap (λ t. t ++ more₃) sent₂ ∙ append_assoc (k.sent io₁.storage) more₂ more₃ in
        (
          io₃,
          rw (le→ltb 127 (length str) h, e, done₁, done₂, done₃),
          idle₃,
          (length str + 128) ∷ (more₂ ++ more₃),
          packed (more₂ ++ more₃) (padding io₂.bitpos) text e
              (sent_since k (k.sent io₁.storage) (more₂ ++ more₃) _ (
                ap byte_bits (sym grown)
                ∙ bits₃
                ∙ ap (λ t. t ++ padding io₂.bitpos)
                    (bits₂ ∙ ap (λ t. t ++ packed_bits str) (bits_sent-idle m k io₁ idle₁))
                ∙ append_assoc (byte_bits (k.sent io₁.storage)) (packed_bits str) _))
              (length-padding io₂.bitpos),
          grown
              ∙ ap (λ t. t ++ (more₂ ++ more₃)) sent₁
              ∙ append_assoc (k.sent io.storage) (to_u8 (bit_or (length str) 0x80) ∷ []) _
              ∙ ap (λ n. k.sent io.storage ++ n ∷ (more₂ ++ more₃))
                  (marked (length str) (omega arith)),
        )
  ]

  -- A string was read whole, and the source is left behind its encoding.
  pub record ReadBack (k : Source m) (str rest : List ℕ) (r : Option (List ℕ) × IoPort S)
      : Type 0 where
    pub string : r.0 ≡ some str
    pub ready : k.Ready r.1.storage
    pub left : k.pending r.1.storage ≡ rest

  -- Fewer than eight bits of padding are all that a reader leaves of a byte.
  pending_after :
      (k : Source m) (io : IoPort S) (pad bytes rest used : List ℕ)
      → IsReading m k io
      → bits_left m k io ≡ pad ++ byte_bits rest
      → length pad < 8
      → bytes ++ rest ≡ used ++ k.pending io.storage
      → k.pending io.storage ≡ rest
  unfolding bits_left
  pending_after k io pad bytes rest used reading left short e =
      let p = io.bitpos in
      let held = if p == 0 then [] else low_bits (8 - p) io.bitbuffer in
      let few : length held < 8 = ground (arith, length-low_bits (8 - p) io.bitbuffer) in
      let same : length (k.pending io.storage) ≡ length rest = omega (
        arith,
        ap length left,
        length-append held (byte_bits (k.pending io.storage)),
        length-append pad (byte_bits rest),
        length-byte_bits (k.pending io.storage),
        length-byte_bits rest,
      ) in
      sym
        (append_split bytes used rest (k.pending io.storage)
          (omega (
            arith,
            ap length e,
            length-append bytes rest,
            length-append used (k.pending io.storage),
          ))
          e).1

  read_marked :
      (k : Source m) (io : IoPort S) (str bytes pad rest : List ℕ)
      → k.Ready io.storage
      → length str ≤ 127
      → IsText str
      → any_plain str ≡ some false
      → byte_bits bytes ≡ packed_bits str ++ pad
      → length pad < 8
      → k.pending io.storage ≡ (length str + 128) ∷ (bytes ++ rest)
      → ReadBack k str rest (read_encstring m io)
  unfolding read_encstring bits_left
  read_marked k io str bytes pad rest ready h text coded bits short e =
      let n = length str in
      let reset = record io { bitpos = 0; bitbuffer = 0 } in
      let (s, got, ready₁, left₁) = read_byte_lem m k reset (n + 128) (bytes ++ rest) ready e in
      let io₁ : IoPort S = record { storage = s; bitpos = 0; bitbuffer = 0 } in
      let (back, reading, left₂, used, behind) =
        read_codes_lem m k io₁ str (pad ++ byte_bits rest)
          (record { ready = ready₁; taken = omega arith }) text coded
          (ap byte_bits left₁
            ∙ byte_bits-append bytes rest
            ∙ ap (λ t. t ++ byte_bits rest) bits
            ∙ append_assoc (packed_bits str) pad (byte_bits rest)) in
      let count : bit_and (n + 128) 0x7f ≡ n = bit_and_ones 7 (n + 128) ∙ omega arith in
      let some_size : (n + 128 == 0) ≡ false = ground arith in
      let large : ltb (n + 128) 0x80 ≡ false = ground arith in
      rw (got, some_size, large, count)
        (record {
          string = ap some back;
          ready = reading.ready;
          left =
              pending_after k (read_codes m io₁ n).1 pad bytes rest used reading left₂ short
                (sym left₁ ∙ behind);
        })

  read_plain :
      (k : Source m) (io : IoPort S) (str rest : List ℕ)
      → k.Ready io.storage
      → length str ≤ 127
      → 0 < length str
      → k.pending io.storage ≡ length str ∷ (str ++ rest)
      → ReadBack k str rest (read_encstring m io)
  unfolding read_encstring read
  read_plain k io str rest ready h some_chars e =
      let reset = record io { bitpos = 0; bitbuffer = 0 } in
      let (s, got, ready₁, left₁) = read_byte_lem m k reset (length str) (str ++ rest) ready e in
      let (s₂, bytes, ready₂, left₂) = k.read_ok s str rest ready₁ left₁ in
      let some_size : (length str == 0) ≡ false = ground arith in
      let small : ltb (length str) 0x80 ≡ true = ground arith in
      rw (got, some_size, small, bytes) (record { string = refl; ready = ready₂; left = left₂ })

  -- `ioport_read_encstring` at an encoding gives the string, and stops right behind it.
  pub read_encstring-ReadBack :
      (k : Source m) (io : IoPort S) (str code rest : List ℕ)
      → k.Ready io.storage
      → length str ≤ 127
      → Encoded str code
      → k.pending io.storage ≡ code ++ rest
      → ReadBack k str rest (read_encstring m io)
  read_encstring-ReadBack k io str _ rest ready h (plain e) at =
      read_plain k io str rest ready h (nonempty str e) at
  read_encstring-ReadBack k io str _ rest ready h (packed bytes pad text coded bits short) at =
      read_marked k io str bytes pad rest ready h text coded bits short at
