-- ===== src/Ioport.antt =====
-- src/libopticon/ioport.c: a port over any storage, its byte and bit streams. A C function that
-- returns false is `none`: its callers give the port up.
pub mod Stream
pub mod Fields
pub mod Crossing
pub mod BitWriter
pub mod Flush
pub mod BitReader
pub mod Strings
pub mod Uuids
pub mod Encint
use opticon.Prelude.{
  ℕ, ◌+◌, ◌-◌, ◌*◌, ◌/◌, ◌%◌, ◌^◌, bit_and, bit_or, Option, none, some, List, [], ◌∷◌, ltb, leb,
  ◌==◌, if◌then◌else◌, get_or, ◌>>=◌,
}

-- the methods of `ioport` that move data
pub record Methods (S : Type 0) : Type 0 where
  pub write : S → List ℕ → Option S
  pub read : S → ℕ → Option (List ℕ) × S

-- `ioport`, less its table of methods
pub record IoPort (S : Type 0) : Type 0 where
  pub storage : S
  pub bitpos : ℕ
  pub bitbuffer : ℕ

abbrev pub bitmasks : List ℕ
bitmasks = 0x00 ∷ 0x01 ∷ 0x03 ∷ 0x07 ∷ 0x0f ∷ 0x1f ∷ 0x3f ∷ 0x7f ∷ 0xff ∷ []

-- `BITMASKS[n]`
abbrev pub bitmask : ℕ → ℕ
bitmask n = get_or bitmasks n 0

-- conversion to `uint8_t`
abbrev pub to_u8 : ℕ → ℕ
to_u8 x = x % 256

-- 0 where the read fails
abbrev pub first_or_zero : {S : Type 0} → Option (List ℕ) × IoPort S → ℕ × IoPort S
first_or_zero (none, io) = (0, io)
first_or_zero (some bytes, io) = (get_or bytes 0 0, io)

module _ {S : Type 0} (m : Methods S) where
  -- a write by the method of the port
  abbrev pub put_bytes : IoPort S → List ℕ → Option (IoPort S)
  put_bytes io bytes = do s ← m.write io.storage bytes; some (record io { storage = s })

  pub flush_bits : IoPort S → Option (IoPort S)
  flush_bits io =
      if io.bitpos == 0
      then some io
      else do io ← put_bytes io (io.bitbuffer ∷ []); some (record io { bitpos = 0; bitbuffer = 0 })

  pub write : IoPort S → List ℕ → Option (IoPort S)
  write io bytes = do io ← (if io.bitpos == 0 then some io else flush_bits io); put_bytes io bytes

  pub write_byte : IoPort S → ℕ → Option (IoPort S)
  write_byte io b = do
    io ← (if io.bitpos == 0 then some io else flush_bits io)
    put_bytes io (to_u8 b ∷ [])

  -- the last part of `ioport_write_bits`: a full byte goes out
  abbrev pub spill : IoPort S → (data2 bits2 : ℕ) → Option (IoPort S)
  spill io data2 bits2 =
      if ltb 7 io.bitpos
      then (do
        io ← put_bytes io (io.bitbuffer ∷ [])
        some (record io {
          bitpos = bits2;
          bitbuffer = if bits2 == 0 then 0 else to_u8 (data2 * 2 ^ (8 - bits2));
        }))
      else some io

  pub write_bits : IoPort S → (d bits : ℕ) → Option (IoPort S)
  write_bits io d bits =
      let bits1 = if ltb (io.bitpos + bits) 8 then bits else 8 - io.bitpos in
      let bits2 = bits - bits1 in
      let shift = 8 - io.bitpos - bits1 in
      let data1 = to_u8 (bit_and (d / 2 ^ bits2) (bitmask bits1) * 2 ^ shift) in
      let data2 = bit_and d (bitmask bits2) in
      let filled = record io {
        bitpos = io.bitpos + bits1;
        bitbuffer = bit_or io.bitbuffer data1;
      } in
      if ltb 8 bits then none else spill filled data2 bits2

  -- `ioport_read`: bits that were left of a byte are dropped
  pub read : IoPort S → ℕ → Option (List ℕ) × IoPort S
  read io sz =
      let (bytes, s) = m.read io.storage sz in
      (bytes, record { storage = s; bitpos = 0; bitbuffer = 0 })

  pub read_byte : IoPort S → ℕ × IoPort S
  unfolding read
  read_byte io = first_or_zero (read io 1)

  -- `if (! io->bitpos) io->bitbuffer = ioport_read_byte (io);`
  abbrev pub load_byte : IoPort S → IoPort S
  load_byte io =
      if io.bitpos == 0 then (let (b, io) = read_byte io in record io { bitbuffer = b }) else io

  -- the bits that the byte at hand does not have
  abbrev pub read_more : IoPort S → (res bits2 : ℕ) → ℕ × IoPort S
  read_more io res bits2 =
      let shift2 = 8 - bits2 in
      let mask2 = if bits2 == 0 then 0 else to_u8 (bitmask bits2 * 2 ^ shift2) in
      let (b, io) = read_byte io in
      (bit_or res (bit_and b mask2 / 2 ^ shift2), record io { bitbuffer = b; bitpos = bits2 })

  abbrev pub bits_of_byte : IoPort S → ℕ → ℕ × IoPort S
  bits_of_byte io numbits =
      let bits1 = if ltb 8 (numbits + io.bitpos) then 8 - io.bitpos else numbits in
      let shift = 8 - io.bitpos - bits1 in
      let mask1 = to_u8 (bitmask bits1 * 2 ^ shift) in
      let bits2 = numbits - bits1 in
      let res = to_u8 (bit_and io.bitbuffer mask1 / 2 ^ shift * 2 ^ bits2) in
      if bits2 == 0 then (res, record io { bitpos = io.bitpos + bits1 }) else read_more io res bits2

  pub read_bits : IoPort S → ℕ → ℕ × IoPort S
  unfolding read_byte
  read_bits io numbits =
      let (res, io') = bits_of_byte (load_byte io) numbits in
      let wrapped = if ltb 8 io'.bitpos then record io' { bitpos = 0 } else io' in
      if ltb 8 numbits then (0, io) else if numbits == 0 then (0, io) else (res, wrapped)
