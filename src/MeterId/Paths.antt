-- ===== src/MeterId/Paths.antt =====
-- The parts of a meter id with a path (src/libopticon/util.c): the mask of a name, the test for a
-- prefix, and the name below it.
use opticon.Prelude.{
  ℕ, zero, suc, ◌+◌, ◌-◌, ◌*◌, ◌/◌, ◌^◌, bit_and, bit_or, Bool, true, false, not, List, [], ◌∷◌,
  ◌==◌, if◌then◌else◌, get_or, take,
}
use opticon.MeterId.{idtable, asciitable, mmask_name, bshift, last_used}

-- `31ULL << bshift`
abbrev pub msk : ℕ → ℕ
msk k = 31 * 2 ^ bshift k

pub mask_chars : ℕ → ℕ → ℕ → ℕ
mask_chars zero id res = res
mask_chars (suc k) id res =
    let rest = mask_chars k id (bit_or res (msk (suc k))) in
    if bit_and id (msk (suc k)) == 0 then res else rest

pub id2mask : ℕ → ℕ
id2mask id = mask_chars 11 id 0

-- the loop of `idisprefix`: the first character that the mask leaves out
pub after_mask : ℕ → ℕ → ℕ → Bool
after_mask zero prefixfor mask = false
after_mask (suc k) prefixfor mask =
    let rest = after_mask k prefixfor mask in
    if bit_and mask (msk (suc k)) == 0
    then bit_and prefixfor (msk (suc k)) / 2 ^ bshift (suc k) == get_or asciitable b'/' 0
    else rest

pub idisprefix : ℕ → ℕ → ℕ → Bool
idisprefix potential prefixfor mask =
    if not (bit_and prefixfor mask == bit_and potential mask)
    then false
    else after_mask 11 prefixfor mask

-- the character of an id at `bshift k`
abbrev pub char_at : ℕ → ℕ → ℕ
char_at id k = get_or idtable (bit_and (bit_and id mmask_name / 2 ^ bshift k) 0x1f) 0

-- the characters that `nodeid2str` writes, those after the first separator
pub node_chars : ℕ → ℕ → Bool → List ℕ
node_chars zero id dowrite = []
node_chars (suc k) id dowrite =
    let t = char_at id (suc k) in
    let rest = node_chars k id (if t == b'/' then true else dowrite) in
    if t == b'/' then rest else if dowrite then t ∷ rest else rest

-- With nothing written the text is empty: `*out = 0` stands first.
pub nodeid2str : ℕ → List ℕ
nodeid2str id = let out = node_chars 11 id false in take (last_used out 0 0 + 1) out

pub mask_of : ℕ → ℕ → ℕ → ℕ
mask_of zero k mask = mask
mask_of (suc sz) k mask = mask_of sz (k - 1) (bit_or mask (0x1f * 2 ^ bshift k))

pub idmask : ℕ → ℕ
idmask sz = mask_of sz 11 0

pub path_chars : ℕ → ℕ → ℕ → ℕ
path_chars zero id res = 0
path_chars (suc k) id res =
    let rest = path_chars k id (res + 1) in if char_at id (suc k) == b'/' then idmask res else rest

pub idhaspath : ℕ → ℕ
idhaspath id = path_chars 11 id 0
