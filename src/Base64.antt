-- ===== src/Base64.antt =====
-- src/libopticon/base64.c: bytes as text and back. A text is its characters before the NUL, and
-- `malloc` gives memory.
pub mod Table
pub mod RoundTrip
pub mod Bounds
mod Tests
use opticon.Prelude.{
  ℕ, zero, suc, ◌+◌, ◌-◌, ◌*◌, ◌/◌, ◌%◌, bit_and, bit_or, Option, none, some, List, [], ◌∷◌, ◌++◌,
  ltb, leb, ◌==◌, not, if◌then◌else◌, get_or, set, take, length, replicate,
}
use opticon.Prelude.Text.{codes}

abbrev pub base64_table : List ℕ
base64_table = codes "ABCDEFGHIJKLMNOPQRSTUVWXYZabcdefghijklmnopqrstuvwxyz0123456789+/"

-- `base64_table[v]`, read only below 64
abbrev pub digit : ℕ → ℕ
digit v = get_or base64_table v 0

-- The size of the buffer for `len` bytes, the NUL with it.
pub encoded_size : ℕ → ℕ
encoded_size len = let olen = len * 4 / 3 + 4 in olen + olen / 72 + 1

-- The loop over blocks of three bytes, and what is left of them.
pub encode_from : ℕ → List ℕ → List ℕ
encode_from line_len [] = []
encode_from line_len (a ∷ []) = digit (a / 4) ∷ digit (bit_and a 0x03 * 16) ∷ b'=' ∷ b'=' ∷ []
encode_from line_len (a ∷ b ∷ []) =
    digit (a / 4)
    ∷ digit (bit_or (bit_and a 0x03 * 16) (b / 16))
    ∷ digit (bit_and b 0x0f * 4)
    ∷ b'='
    ∷ []
encode_from line_len (a ∷ b ∷ c ∷ rest) =
    let ends_line = leb 72 (line_len + 4) in
    let more = encode_from (if ends_line then 0 else line_len + 4) rest in
    digit (a / 4)
    ∷ digit (bit_or (bit_and a 0x03 * 16) (b / 16))
    ∷ digit (bit_or (bit_and b 0x0f * 4) (c / 64))
    ∷ digit (bit_and c 0x3f)
    ∷ (if ends_line then b'\n' ∷ more else more)

-- `base64_encode`
pub encode : List ℕ → List ℕ
encode src = encode_from 0 src

-- the loop that fills `dtable`
pub fill_table : ℕ → List ℕ → List ℕ → List ℕ
fill_table i [] dtable = dtable
fill_table i (c ∷ cs) dtable = fill_table (i + 1) cs (set dtable c i)

pub dtable : List ℕ
unfolding fill_table
dtable = set (fill_table 0 base64_table (replicate 256 0x80)) b'=' 0

-- `dtable[c]`
pub value_of : ℕ → ℕ
unfolding dtable
value_of c = get_or dtable c 0x80

pub count_known : List ℕ → ℕ
count_known [] = 0
count_known (c ∷ cs) = let rest = count_known cs in if value_of c == 0x80 then rest else rest + 1

-- the arrays `in` and `block`, the count of what they hold, and what was written
pub record Decoder : Type 0 where
  pub chars : List ℕ
  pub block : List ℕ
  pub count : ℕ
  pub out : List ℕ

-- `unsigned char` of what is written
abbrev pub to_u8 : ℕ → ℕ
to_u8 x = x % 256

abbrev pub three_bytes : List ℕ → List ℕ
three_bytes block =
    let v = λ (i : ℕ). get_or block i 0 in
    to_u8 (bit_or (v 0 * 4) (v 1 / 16))
    ∷ to_u8 (bit_or (v 1 * 16) (v 2 / 4))
    ∷ to_u8 (bit_or (v 2 * 64) (v 3))
    ∷ []

-- a character that `dtable` knows
pub accept : Decoder → ℕ → ℕ → Decoder
accept s c tmp =
    let chars = set s.chars s.count c in
    let block = set s.block s.count tmp in
    if s.count + 1 == 4
    then record { chars = chars; block = block; count = 0; out = s.out ++ three_bytes block }
    else record { chars = chars; block = block; count = s.count + 1; out = s.out }

pub decode_step : Decoder → ℕ → Decoder
unfolding value_of accept
decode_step s c = if value_of c == 0x80 then s else accept s c (value_of c)

pub decode_loop : Decoder → List ℕ → Decoder
unfolding decode_step
decode_loop s [] = s
decode_loop s (c ∷ cs) = decode_loop (decode_step s c) cs

-- What the padding takes back.
pub unpadded : Decoder → List ℕ
unpadded s =
    if length s.out == 0
    then s.out
    else if get_or s.chars 2 0 == b'='
    then take (length s.out - 2) s.out
    else if get_or s.chars 3 0 == b'='
    then take (length s.out - 1) s.out
    else s.out

-- `base64_decode`; the two arrays hold `junk` at first.
pub decode : ℕ → List ℕ → Option (List ℕ)
decode junk src =
    let start : Decoder = record {
      chars = replicate 4 junk;
      block = replicate 4 junk;
      count = 0;
      out = [];
    } in
    if not (count_known src % 4 == 0) then none else some (unpadded (decode_loop start src))
