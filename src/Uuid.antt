-- ===== src/Uuid.antt =====
-- src/libopticon/uuid.c: identifiers of 128 bits, in two words.
mod Digits
mod Text
mod Valid
mod Tests
use opticon.Prelude.{
  ℕ, zero, suc, ◌+◌, ◌-◌, ◌*◌, ◌/◌, ◌%◌, ◌^◌, bit_or, Bool, true, false, ◌&&◌, ◌||◌, not, Option,
  none, some, List, [], ◌∷◌, ◌++◌, ltb, leb, ◌==◌, if◌then◌else◌,
}

pub record Uuid : Type 0 where
  pub msb : ℕ
  pub lsb : ℕ

unfoldable pub uuidcmp : Uuid → Uuid → Bool
uuidcmp first second = (first.msb == second.msb) && (first.lsb == second.lsb)

unfoldable pub uuidnil : Uuid
uuidnil = record { msb = 0; lsb = 0 }

unfoldable pub uuidvalid : Uuid → Bool
uuidvalid u =
    (not (u.msb == 0) || not (u.lsb == 0))
    && (not (u.msb == 0xffffffffffffffff) || not (u.lsb == 0xffffffffffffffff))

-- The tests on a character of `mkuuid`; `none` is `out = -1`.
pub digit : ℕ → Option ℕ
digit c =
    if leb b'0' c && leb c b'9'
    then some (c - b'0')
    else if leb b'a' c && leb c b'f'
    then some (c - b'a' + 10)
    else if leb b'A' c && leb c b'F'
    then some (c - b'A' + 10)
    else none

-- The variables of the loop of `mkuuid`; `majpos` counts from 2 here, one more than in the source,
-- and the loop ends at 0.
pub record Reading : Type 0 where
  pub res : Uuid
  pub respos : ℕ
  pub majpos : ℕ

pub put_digit : Reading → ℕ → Reading
put_digit r out =
    let rout = out * 2 ^ (4 * (15 - r.respos)) in
    let res : Uuid =
      if r.majpos == 2
      then record { msb = bit_or r.res.msb rout; lsb = r.res.lsb }
      else record { msb = r.res.msb; lsb = bit_or r.res.lsb rout } in
    if ltb 15 (r.respos + 1)
    then record { res = res; respos = 0; majpos = r.majpos - 1 }
    else record { res = res; respos = r.respos + 1; majpos = r.majpos }

pub read_char : Reading → ℕ → Reading
read_char r c = elim (digit c) [ none ↦ r | some out ↦ put_digit r out ]

pub read_chars : List ℕ → Reading → Reading
read_chars [] r = r
read_chars (c ∷ crsr) r = if r.majpos == 0 then r else read_chars crsr (read_char r c)

-- `none` is a null pointer
pub mkuuid : Option (List ℕ) → Uuid
mkuuid none = uuidnil
mkuuid (some str) = (read_chars str (record { res = uuidnil; respos = 0; majpos = 2 })).res

-- the loop of `isuuid`
pub scan : List ℕ → ℕ → ℕ → Bool
scan [] hexcnt dashcnt = hexcnt == 32
scan (c ∷ str) hexcnt dashcnt =
    let hex = (leb b'0' c && leb c b'9') || (leb b'a' c && leb c b'f') in
    let hexcnt' = if hex then hexcnt + 1 else hexcnt in
    let dashcnt' = if hex then dashcnt else dashcnt + 1 in
    let rest = scan str hexcnt' dashcnt' in
    if not hex && not (c == b'-')
    then false
    else if ltb 32 hexcnt'
    then false
    else if ltb 4 dashcnt'
    then false
    else rest

pub isuuid : List ℕ → Bool
isuuid str = scan str 0 0

-- The macro `uuidbyte` and `uuid2str` (src/libopticon/util.c), whose `sprintf` writes two
-- lower-case digits for each byte.
abbrev pub uuidbyte : ℕ → ℕ → ℕ
uuidbyte xx yy = xx / 2 ^ (56 - 8 * yy) % 256

abbrev pub hex_digit : ℕ → ℕ
hex_digit n = if ltb n 10 then n + b'0' else n - 10 + b'a'

abbrev pub hex_byte : ℕ → ℕ → List ℕ
hex_byte xx yy = let b = uuidbyte xx yy in hex_digit (b / 16) ∷ hex_digit (b % 16) ∷ []

pub uuid2str : Uuid → List ℕ
uuid2str u =
    hex_byte u.msb 0
    ++ (hex_byte u.msb 1
        ++ (hex_byte u.msb 2
            ++ (hex_byte u.msb 3
                ++ b'-'
                  ∷ (hex_byte u.msb 4
                      ++ (hex_byte u.msb 5
                          ++ b'-'
                            ∷ (hex_byte u.msb 6
                                ++ (hex_byte u.msb 7
                                    ++ b'-'
                                      ∷ (hex_byte u.lsb 0
                                          ++ (hex_byte u.lsb 1
                                              ++ b'-'
                                                ∷ (hex_byte u.lsb 2
                                                    ++ (hex_byte u.lsb 3
                                                        ++ (hex_byte u.lsb 4
                                                            ++ (hex_byte u.lsb 5
                                                            ++ (hex_byte u.lsb 6
                                                            ++ hex_byte u.lsb 7))))))))))))))
