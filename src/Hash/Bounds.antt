-- ===== src/Hash/Bounds.antt =====
-- The range of the hash of a token.
use opticon.Prelude.{ℕ, zero, suc, ◌<◌, List, length, ◌==◌, if◌then◌else◌, arith}
use opticon.Hash.{hash_token, switch, spread, word, mixed}

mixed-lt : (ustr : List ℕ) (s prime i hash : ℕ) → mixed ustr s prime i hash < word
mixed-lt ustr s prime i hash = omega arith

switch-lt : (i : ℕ) (ustr : List ℕ) (s hash : ℕ) → switch i ustr s hash < word
switch-lt zero ustr s hash = mixed-lt ustr s 1217 0 _
switch-lt (suc zero) ustr s hash = mixed-lt ustr s 1217 0 _
switch-lt (suc (suc zero)) ustr s hash = mixed-lt ustr s 1217 0 _
switch-lt (suc (suc (suc zero))) ustr s hash = mixed-lt ustr s 1217 0 _
switch-lt (suc (suc (suc (suc zero)))) ustr s hash = mixed-lt ustr s 1217 0 _
switch-lt (suc (suc (suc (suc (suc zero))))) ustr s hash = mixed-lt ustr s 1217 0 _
switch-lt (suc (suc (suc (suc (suc (suc k)))))) ustr s hash = mixed-lt ustr s 1217 0 _

-- The hash of a token, whatever the seed and the token, is never 0, which marks a free slot of the
-- token cache, and fits in 32 bits.
pub hash_token_bounds :
    (ihash : ℕ) (ustr : List ℕ) → (0 < hash_token ihash ustr) × (hash_token ihash ustr < word)
unfolding hash_token
hash_token_bounds ihash ustr =
    let s = spread ustr ihash in
    let h = switch (length ustr) ustr s s in
    let small = switch-lt (length ustr) ustr s s in in_range h small
  where
    in_range :
        (h : ℕ)
        → h < word
        → (0 < (if h == 0 then 154004 else h)) × ((if h == 0 then 154004 else h) < word)
    in_range h small = ground arith
