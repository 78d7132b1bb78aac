-- ===== src/Hash.antt =====
-- src/libopticon/hash.c: the hash of a text. The seed `IHASH`, a random word that is drawn once, is
-- an argument; a text ends before its NUL, which reads as 0.
pub mod Bounds
mod Tests
use opticon.Prelude.{
  ℕ, zero, suc, ◌+◌, ◌*◌, ◌%◌, ◌^◌, bit_and, bit_xor, List, [], ◌∷◌, ltb, ◌==◌, if◌then◌else◌,
  get_or, length,
}

abbrev pub word : ℕ
word = 2 ^ 32

-- `ustr[i] & 0xDF`
abbrev pub folded : List ℕ → ℕ → ℕ
folded ustr i = bit_and (get_or ustr i 0) 0xdf

-- the loop over the characters
unfoldable pub spread : List ℕ → ℕ → ℕ
spread [] hash = hash
spread (c ∷ cs) hash = spread cs ((hash * 32 % word + hash + bit_and c 0xdf) % word)

-- `hash += (s % prime) * (ustr[i] & 0xDF)`
abbrev pub mixed : List ℕ → ℕ → ℕ → ℕ → ℕ → ℕ
mixed ustr s prime i hash = (hash + s % prime * folded ustr i) % word

-- `hash ^= hash << k`
abbrev pub shifted : ℕ → ℕ → ℕ
shifted k hash = bit_xor hash (hash * 2 ^ k % word)

-- The cases of the `switch`, each falling through to the next.
abbrev pub case_0 : List ℕ → ℕ → ℕ → ℕ
case_0 ustr s hash = mixed ustr s 1217 0 hash

abbrev pub case_1 : List ℕ → ℕ → ℕ → ℕ
case_1 ustr s hash = case_0 ustr s (shifted 25 (mixed ustr s 6101 1 hash))

abbrev pub case_2 : List ℕ → ℕ → ℕ → ℕ
case_2 ustr s hash = case_1 ustr s (mixed ustr s 7649 2 hash)

abbrev pub case_3 : List ℕ → ℕ → ℕ → ℕ
case_3 ustr s hash = case_2 ustr s (shifted 15 (mixed ustr s 1607 3 hash))

abbrev pub case_4 : List ℕ → ℕ → ℕ → ℕ
case_4 ustr s hash = case_3 ustr s (mixed ustr s 271 4 hash)

abbrev pub case_5 : List ℕ → ℕ → ℕ → ℕ
case_5 ustr s hash = case_4 ustr s (shifted 7 (mixed ustr s 4643 5 hash))

abbrev pub case_6 : List ℕ → ℕ → ℕ → ℕ
case_6 ustr s hash = case_5 ustr s (mixed ustr s 5779 6 hash)

abbrev pub switch : ℕ → List ℕ → ℕ → ℕ → ℕ
switch zero = case_0
switch (suc zero) = case_1
switch (suc (suc zero)) = case_2
switch (suc (suc (suc zero))) = case_3
switch (suc (suc (suc (suc zero)))) = case_4
switch (suc (suc (suc (suc (suc zero))))) = case_5
switch (suc (suc (suc (suc (suc (suc k)))))) = case_6

unfoldable pub hash_token : ℕ → List ℕ → ℕ
unfolding spread
hash_token ihash ustr =
    let s = spread ustr ihash in
    let hash = switch (length ustr) ustr s s in if hash == 0 then 154004 else hash
