-- ===== src/Base64/Bounds.antt =====
-- The size of the buffer of `base64_encode`.
use opticon.Prelude.{
  ℕ, ◌+◌, ◌*◌, ◌/◌, ◌<◌, ◌≤◌, List, [], ◌∷◌, leb, length, arith, Bool-cases, inl, inr,
}
use opticon.Base64.{encoded_size, encode_from, encode}

-- A line is `line_len` characters long so far, and a line end follows each 72.
encode_from-fits :
    (line_len : ℕ) (src : List ℕ)
    → line_len < 72
    → 72 * length (encode_from line_len src) ≤ 73 * (4 * ((length src + 2) / 3)) + line_len
unfolding encode_from
encode_from-fits line_len [] h = omega arith
encode_from-fits line_len (a ∷ []) h = omega arith
encode_from-fits line_len (a ∷ b ∷ []) h = omega arith
encode_from-fits line_len (a ∷ b ∷ c ∷ src) h = elim (Bool-cases (leb 72 (line_len + 4))) [
  | inl e ↦
      let full : 72 ≤ line_len + 4 = ground arith in
      rw e (omega (arith, encode_from-fits 0 src (omega arith)))
  | inr e ↦
      let room : line_len + 4 < 72 = ground arith in
      rw e (omega (arith, encode_from-fits (line_len + 4) src room))
]

-- The text that `base64_encode` writes for any bytes, its NUL included, fits in the buffer that it
-- allocates.
pub encode-fits : (src : List ℕ) → length (encode src) + 1 ≤ encoded_size (length src)
unfolding encode encoded_size
encode-fits src = omega (arith, encode_from-fits 0 src (omega arith))
