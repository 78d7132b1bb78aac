-- ===== src/Ioport/Strings.antt =====
-- `ioport_write_encstring` and `ioport_read_encstring` of src/libopticon/ioport.c: a string goes
-- out as a length and either plain bytes or six bits for each character. A string is the list of
-- its bytes, without the terminator. `char` is signed: a byte from 128 on is a negative character,
-- and not above 127.
pub mod Packing
pub mod RoundTrip
use opticon.Prelude.{
  ℕ, zero, suc, ◌+◌, bit_and, bit_or, Bool, true, false, ◌||◌, Option, none, some, List, [], ◌∷◌,
  ltb, ◌==◌, if◌then◌else◌, get_or, length, ◌>>=◌,
}
use opticon.Prelude.Text.{codes}
use opticon.Ioport.{
  Methods, IoPort, flush_bits, write, write_byte, write_bits, read, read_byte, read_bits,
}

abbrev pub encset : List ℕ
encset = codes "abcdefghijklmnopqrstuvwxyz#/-_ 0123456789ABCDEFGHJKLMNPQSTUVWXZ."

-- `DECSET`, whose last element has no initialiser
abbrev pub decset : List ℕ
decset =
    255 ∷ 255 ∷ 255 ∷ 255 ∷ 255 ∷ 255 ∷ 255 ∷ 255 ∷ 255 ∷ 255 ∷ 255 ∷ 255 ∷ 255 ∷ 255 ∷ 255 ∷ 255
    ∷ 255 ∷ 255 ∷ 255 ∷ 255 ∷ 255 ∷ 255 ∷ 255 ∷ 255 ∷ 255 ∷ 255 ∷ 255 ∷ 255 ∷ 255 ∷ 255 ∷ 255 ∷ 255
    ∷ 30 ∷ 255 ∷ 255 ∷ 26 ∷ 255 ∷ 255 ∷ 255 ∷ 255 ∷ 255 ∷ 255 ∷ 255 ∷ 255 ∷ 255 ∷ 28 ∷ 63 ∷ 27 ∷ 31
    ∷ 32 ∷ 33 ∷ 34 ∷ 35 ∷ 36 ∷ 37 ∷ 38 ∷ 39 ∷ 40 ∷ 255 ∷ 255 ∷ 255 ∷ 255 ∷ 255 ∷ 255 ∷ 255 ∷ 41 ∷ 42
    ∷ 43 ∷ 44 ∷ 45 ∷ 46 ∷ 47 ∷ 48 ∷ 255 ∷ 49 ∷ 50 ∷ 51 ∷ 52 ∷ 53 ∷ 255 ∷ 54 ∷ 55 ∷ 255 ∷ 56 ∷ 57
    ∷ 58 ∷ 59 ∷ 60 ∷ 61 ∷ 255 ∷ 62 ∷ 255 ∷ 255 ∷ 255 ∷ 255 ∷ 29 ∷ 255 ∷ 0 ∷ 1 ∷ 2 ∷ 3 ∷ 4 ∷ 5 ∷ 6
    ∷ 7 ∷ 8 ∷ 9 ∷ 10 ∷ 11 ∷ 12 ∷ 13 ∷ 14 ∷ 15 ∷ 16 ∷ 17 ∷ 18 ∷ 19 ∷ 20 ∷ 21 ∷ 22 ∷ 23 ∷ 24 ∷ 25
    ∷ 255 ∷ 255 ∷ 255 ∷ 255 ∷ 0 ∷ []

-- `DECSET[c]`, read only at `c` up to 127
unfoldable pub code_of : ℕ → ℕ
code_of c = get_or decset c 255

-- `ENCSET[v]`, read only at `v` below 64
pub char_of : ℕ → ℕ
char_of v = get_or encset v 0

-- Whether the six-bit set lacks a character; `none` where the index is negative and the byte that
-- is read lies outside of the table.
pub is_plain : ℕ → Option Bool
unfolding code_of
is_plain c = if ltb c 128 then some (code_of c == 255) else none

-- the loop that looks for such a character
unfoldable pub any_plain : List ℕ → Option Bool
any_plain [] = some false
any_plain (c ∷ str) = do plain ← is_plain c; if plain then some true else any_plain str

module _ {S : Type 0} (m : Methods S) where
  -- the loop over the packed characters
  pub write_codes : IoPort S → List ℕ → Option (IoPort S)
  unfolding code_of
  write_codes io [] = some io
  write_codes io (c ∷ str) = do io ← write_bits m io (code_of c) 6; write_codes io str

  -- `none` is `return false`, or an index outside of the table.
  pub write_encstring : IoPort S → List ℕ → Option (IoPort S)
  unfolding any_plain write_codes
  write_encstring io str = if ltb 127 (length str) then none else do
    plain ← any_plain str
    if plain then (do io ← write_byte m io (length str); write m io str) else (do
      io ← write_byte m io (bit_or (length str) 0x80)
      io ← write_codes io str
      flush_bits m io)

  -- the loop over `n` packed characters
  pub read_codes : IoPort S → ℕ → List ℕ × IoPort S
  unfolding char_of
  read_codes io zero = ([], io)
  read_codes io (suc n) =
      let (v, io) = read_bits m io 6 in let (str, io) = read_codes io n in (char_of v ∷ str, io)

  -- The string that ends up in `into`, or `none` for the result `false`.
  pub read_encstring : IoPort S → Option (List ℕ) × IoPort S
  unfolding read_codes
  read_encstring io =
      let (sz, io) = read_byte m (record io { bitpos = 0; bitbuffer = 0 }) in
      let (str, packed) = read_codes io (bit_and sz 0x7f) in
      if sz == 0 then (none, io) else if ltb sz 0x80 then read m io sz else (some str, packed)
