-- ===== src/MeterId.antt =====
-- Meter ids (src/libopticon/util.c): up to 11 characters of five bits below the two bits of the
-- type. In the loops `k` characters are left, and `bshift` is `5 * k + 2`; they end at 2. A label
-- is its text up to the NUL, and a character is an `unsigned char`, of which those from 128 are
-- negative in the source.
mod Fields
mod Names
mod Prefix
pub mod Paths
mod Tests
use opticon.Prelude.{
  ℕ, zero, suc, ◌+◌, ◌-◌, ◌*◌, ◌/◌, ◌^◌, bit_and, bit_or, List, [], ◌∷◌, ltb, ◌==◌, if◌then◌else◌,
  get_or, take,
}
use opticon.Prelude.Text.{codes}

-- `IDTABLE`
abbrev pub idtable : List ℕ
idtable = codes " abcdefghijklmnopqrstuvwxyz.-_/@"

-- `ASCIITABLE`
abbrev pub asciitable : List ℕ
asciitable =
    0 ∷ 0 ∷ 0 ∷ 0 ∷ 0 ∷ 0 ∷ 0 ∷ 0 ∷ 0 ∷ 0 ∷ 0 ∷ 0 ∷ 0 ∷ 0 ∷ 0 ∷ 0 ∷ 0 ∷ 0 ∷ 0 ∷ 0 ∷ 0 ∷ 0 ∷ 0 ∷ 0
    ∷ 0 ∷ 0 ∷ 0 ∷ 0 ∷ 0 ∷ 0 ∷ 0 ∷ 0 ∷ 0 ∷ 0 ∷ 0 ∷ 0 ∷ 0 ∷ 0 ∷ 0 ∷ 0 ∷ 0 ∷ 0 ∷ 0 ∷ 0 ∷ 0 ∷ 28 ∷ 27
    ∷ 30 ∷ 0 ∷ 0 ∷ 0 ∷ 0 ∷ 0 ∷ 0 ∷ 0 ∷ 0 ∷ 0 ∷ 0 ∷ 0 ∷ 0 ∷ 0 ∷ 0 ∷ 0 ∷ 0 ∷ 31 ∷ 1 ∷ 2 ∷ 3 ∷ 4 ∷ 5
    ∷ 6 ∷ 7 ∷ 8 ∷ 9 ∷ 10 ∷ 11 ∷ 12 ∷ 13 ∷ 14 ∷ 15 ∷ 16 ∷ 17 ∷ 18 ∷ 19 ∷ 20 ∷ 21 ∷ 22 ∷ 23 ∷ 24 ∷ 25
    ∷ 26 ∷ 0 ∷ 0 ∷ 0 ∷ 0 ∷ 29 ∷ 0 ∷ 1 ∷ 2 ∷ 3 ∷ 4 ∷ 5 ∷ 6 ∷ 7 ∷ 8 ∷ 9 ∷ 10 ∷ 11 ∷ 12 ∷ 13 ∷ 14 ∷ 15
    ∷ 16 ∷ 17 ∷ 18 ∷ 19 ∷ 20 ∷ 21 ∷ 22 ∷ 23 ∷ 24 ∷ 25 ∷ 26 ∷ 0 ∷ 0 ∷ 0 ∷ 0 ∷ 0 ∷ []

-- `MMASK_NAME`
abbrev pub mmask_name : ℕ
mmask_name = 0x3fffffffffffffe0

abbrev pub bshift : ℕ → ℕ
bshift k = 5 * k + 2

unfoldable pub make_chars : ℕ → List ℕ → ℕ → ℕ
make_chars k [] res = res
make_chars k (c ∷ crsr) res =
    let known = ltb c 128 in
    let rest =
      make_chars (if known then k - 1 else k) crsr
        (if known then bit_or res (get_or asciitable c 0 * 2 ^ bshift k) else res) in
    if k == 0 then res else rest

-- The third argument is not used.
unfoldable pub makeid : List ℕ → ℕ → ℕ → ℕ
unfolding make_chars
makeid label type pos = make_chars 11 label type

pub id_chars : ℕ → ℕ → List ℕ
id_chars zero id = []
id_chars (suc k) id =
    let tmp = bit_and (bit_and id mmask_name / 2 ^ bshift (suc k)) 0x1f in
    get_or idtable tmp 0 ∷ id_chars k id

-- the position `end`: that of the last character that is not blank
pub last_used : List ℕ → ℕ → ℕ → ℕ
last_used [] out end = end
last_used (t ∷ ts) out end = last_used ts (out + 1) (if t == b' ' then end else out)

pub id2str : ℕ → List ℕ
id2str id = let out = id_chars 11 id in take (last_used out 0 0 + 1) out

unfoldable pub prefix_chars : ℕ → ℕ → ℕ → ℕ
prefix_chars zero id res = 0
prefix_chars (suc k) id res =
    let part = bit_and id (31 * 2 ^ bshift (suc k)) in
    let ch = part / 2 ^ bshift (suc k) in
    let rest = prefix_chars k id (bit_or res part) in
    if get_or idtable ch 0 == b'/' then res else rest

unfoldable pub idgetprefix : ℕ → ℕ
unfolding prefix_chars
idgetprefix id = if bit_and id mmask_name == 0 then 0 else prefix_chars 11 id 0
