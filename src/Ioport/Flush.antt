-- ===== src/Ioport/Flush.antt =====
-- `ioport_flush_bits`, and the writes that start on a byte boundary, over a sink.
use opticon.Prelude.{
  ℕ, ◌+◌, ◌-◌, ◌/◌, ◌%◌, ◌^◌, ◌≡◌, refl, sym, ap, ◌∙◌, some, List, [], ◌∷◌, ◌++◌, append_assoc,
  append-nil, arith, ◌==◌, if◌then◌else◌, Bool-cases, inl, inr, true,
}
use opticon.Ioport.{Methods, IoPort, to_u8, flush_bits, write, write_byte}
use opticon.Ioport.BitWriter.{IsOpen, bits_sent}
use opticon.Ioport.Stream.{Sink, low_bits_mod, low_bits-add, low_bits, byte_bits, byte_bits-snoc}

-- the zeroes that fill the last byte
abbrev pub padding : ℕ → List ℕ
padding p = if p == 0 then [] else low_bits (8 - p) 0

module _ {S : Type 0} (m : Methods S) (k : Sink m) where
  open k use {Ready, sent, write_ok}

  -- A port on a byte boundary.
  pub record IsIdle (io : IoPort S) : Type 0 where
    pub ready : Ready io.storage
    pub bitpos : io.bitpos ≡ 0
    pub bitbuffer : io.bitbuffer ≡ 0

  pub IsOpen-of_idle : (io : IoPort S) → IsIdle io → IsOpen m k io
  IsOpen-of_idle io i =
      let whole : 8 - io.bitpos ≡ 8 = omega (arith, i.bitpos) in
      record {
        ready = i.ready;
        partial = omega (arith, i.bitpos);
        clear = rw (whole, i.bitbuffer);
        byte = omega (arith, i.bitbuffer);
      }

  pub bits_sent-idle : (io : IoPort S) → IsIdle io → bits_sent m k io ≡ byte_bits (sent io.storage)
  unfolding bits_sent
  bits_sent-idle io i =
      ap (λ (p : ℕ). byte_bits (sent io.storage) ++ low_bits p (io.bitbuffer / 2 ^ (8 - p)))
        i.bitpos
      ∙ append-nil (byte_bits (sent io.storage))

  last_byte :
      (io : IoPort S)
      → IsOpen m k io
      → low_bits 8 io.bitbuffer
        ≡ low_bits io.bitpos (io.bitbuffer / 2 ^ (8 - io.bitpos)) ++ low_bits (8 - io.bitpos) 0
  last_byte io o =
      let p = io.bitpos in
      let a = 8 - p in
      let e : 8 ≡ p + a = omega (arith, o.partial) in
      ap (λ n. low_bits n io.bitbuffer) e
      ∙ low_bits-add p a io.bitbuffer
      ∙ ap (λ t. low_bits p (io.bitbuffer / 2 ^ a) ++ t)
          (low_bits_mod a io.bitbuffer ∙ ap (low_bits a) o.clear)

  -- `ioport_flush_bits` sends the waiting bits, filled up with zeroes to a byte.
  pub flush_bits_lem :
      (io : IoPort S)
      → IsOpen m k io
      → (io' : IoPort S) × (flush_bits m io ≡ some io')
        × IsIdle io'
        × (byte_bits (sent io'.storage) ≡ bits_sent m k io ++ padding io.bitpos)
        × (more : List ℕ) × (sent io'.storage ≡ sent io.storage ++ more)
  unfolding flush_bits bits_sent
  flush_bits_lem io o = elim (Bool-cases (io.bitpos == 0)) [
    | inl e ↦
        let none_waits : io.bitpos ≡ 0 = ground arith in
        let whole : 8 - io.bitpos ≡ 8 = omega arith in
        let clear : io.bitbuffer % 2 ^ 8 ≡ 0 = rw whole at o.clear in
        let clean : io.bitbuffer ≡ 0 = omega (arith, o.byte) in
        let no_padding : padding io.bitpos ≡ [] = rw e in
        let front = byte_bits (sent io.storage) in
        (
          io,
          rw e,
          record { ready = o.ready; bitpos = none_waits; bitbuffer = clean },
          sym (append-nil front)
              ∙ ap (λ (p : ℕ). front ++ low_bits p (io.bitbuffer / 2 ^ (8 - p))) (sym none_waits)
              ∙ sym (append-nil (bits_sent m k io))
              ∙ ap (λ t. bits_sent m k io ++ t) (sym no_padding),
          [],
          sym (append-nil (sent io.storage)),
        )
    | inr e ↦
        let (s', went, ready, sent') = write_ok io.storage (io.bitbuffer ∷ []) o.ready in
        (
          record { storage = s'; bitpos = 0; bitbuffer = 0 },
          rw (e, went),
          record { ready = ready; bitpos = refl; bitbuffer = refl },
          rw e (
              ap byte_bits sent'
              ∙ byte_bits-snoc (sent io.storage) io.bitbuffer
              ∙ ap (λ t. byte_bits (sent io.storage) ++ t) (last_byte io o)
              ∙ sym (append_assoc (byte_bits (sent io.storage)) _ (low_bits (8 - io.bitpos) 0))),
          io.bitbuffer ∷ [],
          sent',
        )
  ]

  -- On a byte boundary a byte or a blob goes straight to the storage.
  pub write_byte_lem :
      (io : IoPort S) (b : ℕ)
      → IsIdle io
      → (io' : IoPort S) × (write_byte m io b ≡ some io')
        × IsIdle io'
        × (sent io'.storage ≡ sent io.storage ++ to_u8 b ∷ [])
  unfolding write_byte
  write_byte_lem io b i =
      let (s', went, ready, sent') = write_ok io.storage (to_u8 b ∷ []) i.ready in
      let e : (io.bitpos == 0) ≡ true = ground (arith, i.bitpos) in
      (
        record io { storage = s' },
        rw (e, went),
        record { ready = ready; bitpos = i.bitpos; bitbuffer = i.bitbuffer },
        sent',
      )

  pub write_lem :
      (io : IoPort S) (bytes : List ℕ)
      → IsIdle io
      → (io' : IoPort S) × (write m io bytes ≡ some io')
        × IsIdle io'
        × (sent io'.storage ≡ sent io.storage ++ bytes)
  unfolding write
  write_lem io bytes i =
      let (s', went, ready, sent') = write_ok io.storage bytes i.ready in
      let e : (io.bitpos == 0) ≡ true = ground (arith, i.bitpos) in
      (
        record io { storage = s' },
        rw (e, went),
        record { ready = ready; bitpos = i.bitpos; bitbuffer = i.bitbuffer },
        sent',
      )
