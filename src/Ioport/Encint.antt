-- ===== src/Ioport/Encint.antt =====
-- `ioport_write_encint` and `ioport_read_encint` (src/libopticon/ioport.c): seven bits to a byte,
-- the highest first. The mask `0x7f << bitpos` is a shift of an `int`, which C defines up to
-- `bitpos` 21 only; what it is above that is the parameter `shl`.
pub mod Writing
pub mod Reading
pub mod Fuel
use opticon.Prelude.{
  ℕ, zero, suc, ◌+◌, ◌*◌, ◌/◌, ◌%◌, ◌^◌, bit_and, bit_or, Bool, true, false, ◌||◌, not, Option,
  none, some, ltb, ◌==◌, if◌then◌else◌, ◌>>=◌,
}
use opticon.Ioport.{Methods, IoPort, to_u8, write_byte, read_byte}

-- `byte` at `bitpos`, before the mark that more follow
abbrev pub byte_at : (ℕ → ℕ) → ℕ → ℕ → ℕ
byte_at shl i bitpos =
    let msk = if ltb bitpos 22 then 0x7f * 2 ^ bitpos else shl bitpos in
    to_u8 (bit_and i msk / 2 ^ bitpos)

module _ {S : Type 0} (m : Methods S) (shl : ℕ → ℕ) where
  -- the loop, with `k` rounds left, the next of them at `bitpos` 7 * (k - 1)
  pub write_bytes : ℕ → IoPort S → ℕ → Bool → Option (IoPort S)
  write_bytes zero io i started = some io
  write_bytes (suc k) io i started =
      let bitpos = 7 * k in
      let byte = byte_at shl i bitpos in
      let sends = not (byte == 0) || started in
      do
        io ←
            if sends
            then write_byte m io (if bitpos == 0 then byte else bit_or byte 0x80)
            else some io
        write_bytes k io i sends

  pub write_encint : IoPort S → ℕ → Option (IoPort S)
  write_encint io i = if i == 0 then write_byte m io 0 else write_bytes 9 io i false

module _ {S : Type 0} (m : Methods S) where
  -- the loop, with fuel; `res <<= 7` drops what passes 64 bits
  pub read_bytes : ℕ → IoPort S → ℕ → Option (ℕ × IoPort S)
  read_bytes zero io res = none
  read_bytes (suc fuel) io res =
      let (d, io') = read_byte m io in
      let res' = bit_or (if res == 0 then res else res * 2 ^ 7 % 2 ^ 64) (bit_and d 0x7f) in
      let rest = read_bytes fuel io' res' in if bit_and d 0x80 == 0 then some (res', io') else rest

  pub read_encint : ℕ → IoPort S → Option (ℕ × IoPort S)
  read_encint fuel io = read_bytes fuel io 0
