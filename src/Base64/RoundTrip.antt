-- ===== src/Base64/RoundTrip.antt =====
-- Bytes through base64.
use opticon.Prelude.{
  ℕ, ◌+◌, ◌-◌, ◌*◌, ◌/◌, ◌%◌, ◌<◌, ◌≡◌, refl, sym, ap, ◌∙◌, true, false, ◌⊎◌, inl, inr, some, List,
  [], ◌∷◌, ◌++◌, append-nil, append_assoc, leb, ◌==◌, if◌then◌else◌, get_or, take, length,
  length-append, take_append, Each, arith, Bool-cases, bit_and, bit_or, Bool,
}
use opticon.Prelude.Bits.{bit_and_ones, bit_or-add}
use opticon.Base64.{
  digit, encode_from, encode, value_of, count_known, Decoder, three_bytes, accept, decode_step,
  decode_loop, unpadded, decode,
}
use opticon.Base64.Table.{
  value_of-digit, digit-no_padding, v0, v1, v2, v3, v1_lem, v2_lem, v3_lem, first_byte, second_byte,
  third_byte,
}

-- a decoder between two blocks
abbrev at : (i0 i1 i2 i3 b0 b1 b2 b3 : ℕ) → List ℕ → Decoder
at i0 i1 i2 i3 b0 b1 b2 b3 out = record {
  chars = i0 ∷ i1 ∷ i2 ∷ i3 ∷ [];
  block = b0 ∷ b1 ∷ b2 ∷ b3 ∷ [];
  count = 0;
  out = out;
}

step-digit : (s : Decoder) (v : ℕ) → v < 64 → decode_step s (digit v) ≡ accept s (digit v) v
unfolding decode_step
step-digit s v h =
    let known : (v == 0x80) ≡ false = ground arith in rw (value_of-digit v h, known) refl

step-newline : (s : Decoder) → decode_step s b'\n' ≡ s
unfolding decode_step
step-newline s = refl

-- Four digits give three bytes.
four_digits :
    (i0 i1 i2 i3 b0 b1 b2 b3 : ℕ) (out : List ℕ) (w x y z : ℕ) (rest : List ℕ)
    → w < 64
    → x < 64
    → y < 64
    → z < 64
    → decode_loop (at i0 i1 i2 i3 b0 b1 b2 b3 out) (digit w ∷ digit x ∷ digit y ∷ digit z ∷ rest)
      ≡ decode_loop
          (at
            (digit w)
            (digit x)
            (digit y)
            (digit z)
            w
            x
            y
            z
            (out ++ three_bytes (w ∷ x ∷ y ∷ z ∷ [])))
          rest
unfolding decode_loop accept
four_digits i0 i1 i2 i3 b0 b1 b2 b3 out w x y z rest hw hx hy hz =
    rw (step-digit _ w hw, step-digit _ x hx, step-digit _ y hy, step-digit _ z hz) refl

three_digits :
    (i0 i1 i2 i3 b0 b1 b2 b3 : ℕ) (out : List ℕ) (w x y : ℕ)
    → w < 64
    → x < 64
    → y < 64
    → decode_loop (at i0 i1 i2 i3 b0 b1 b2 b3 out) (digit w ∷ digit x ∷ digit y ∷ b'=' ∷ [])
      ≡ at (digit w) (digit x) (digit y) b'=' w x y 0 (out ++ three_bytes (w ∷ x ∷ y ∷ 0 ∷ []))
unfolding decode_loop accept
three_digits i0 i1 i2 i3 b0 b1 b2 b3 out w x y hw hx hy =
    rw (step-digit _ w hw, step-digit _ x hx, step-digit _ y hy) refl

two_digits :
    (i0 i1 i2 i3 b0 b1 b2 b3 : ℕ) (out : List ℕ) (w x : ℕ)
    → w < 64
    → x < 64
    → decode_loop (at i0 i1 i2 i3 b0 b1 b2 b3 out) (digit w ∷ digit x ∷ b'=' ∷ b'=' ∷ [])
      ≡ at (digit w) (digit x) b'=' b'=' w x 0 0 (out ++ three_bytes (w ∷ x ∷ 0 ∷ 0 ∷ []))
unfolding decode_loop accept
two_digits i0 i1 i2 i3 b0 b1 b2 b3 out w x hw hx = rw (step-digit _ w hw, step-digit _ x hx) refl

take_but : (xs ys : List ℕ) (n : ℕ) → length ys ≡ n → take (length (xs ++ ys) - n) (xs ++ ys) ≡ xs
take_but xs ys n h =
    let e : length (xs ++ ys) - n ≡ length xs = omega (arith, length-append xs ys) in
    ap (λ (k : ℕ). take k (xs ++ ys)) e ∙ take_append xs ys

some_out : (xs : List ℕ) (y : ℕ) (ys : List ℕ) → (length (xs ++ y ∷ ys) == 0) ≡ false
some_out xs y ys = ground (arith, length-append xs (y ∷ ys))

-- Nothing to take back: no block so far, or the last one without padding.
abbrev IsWhole : ℕ → ℕ → List ℕ → Type 0
IsWhole i2 i3 out = (length out ≡ 0) ⊎ (((i2 == b'=') ≡ false) × ((i3 == b'=') ≡ false))

abbrev AreBytes : List ℕ → Type 0
AreBytes = Each (λ b. b < 256)

skip_newline :
    (s : Decoder) (ends_line : Bool) (more : List ℕ)
    → decode_loop s (if ends_line then b'\n' ∷ more else more) ≡ decode_loop s more
unfolding decode_loop
skip_newline s true more = rw (step-newline s) refl
skip_newline s false more = refl

first_of : (a x : ℕ) → a < 256 → x ≡ a % 4 * 16 → bit_or (a / 4 * 4) (x / 16) % 256 ≡ a
first_of a x ha e =
    let low : x / 16 ≡ a % 4 = omega arith in
    ap (λ (t : ℕ). bit_or (a / 4 * 4) t % 256) low
    ∙ ap (λ (t : ℕ). t % 256) (bit_or-add 2 (a / 4) (a % 4) (omega arith))
    ∙ omega arith

second_of : (a b y : ℕ) → b < 256 → y ≡ b % 16 * 4 → bit_or (v1 a b * 16) (y / 4) % 256 ≡ b
second_of a b y hb e =
    let low : y / 4 ≡ b % 16 = omega arith in
    ap (λ (t : ℕ). bit_or (v1 a b * 16) t % 256) low
    ∙ ap (λ (t : ℕ). t % 256) (bit_or-add 4 (v1 a b) (b % 16) (omega arith))
    ∙ omega (arith, v1_lem a b hb)

decode_from :
    (line_len : ℕ) (src : List ℕ) (i0 i1 i2 i3 b0 b1 b2 b3 : ℕ) (out : List ℕ)
    → AreBytes src
    → IsWhole i2 i3 out
    → unpadded (decode_loop (at i0 i1 i2 i3 b0 b1 b2 b3 out) (encode_from line_len src))
      ≡ out ++ src
unfolding encode_from decode_loop unpadded
decode_from line_len [] i0 i1 i2 i3 b0 b1 b2 b3 out small (inl none_out) =
    let e : (length out == 0) ≡ true = ground arith in rw e (sym (append-nil out))
decode_from line_len [] i0 i1 i2 i3 b0 b1 b2 b3 out small (inr (whole, whole')) =
    elim (Bool-cases (length out == 0)) [
      | inl e ↦ rw e (sym (append-nil out))
      | inr e ↦ rw (e, whole, whole') (sym (append-nil out))
    ]
decode_from line_len (a ∷ []) i0 i1 i2 i3 b0 b1 b2 b3 out (ha, _) whole =
    let x = bit_and a 3 * 16 in
    let x_lem : x ≡ a % 4 * 16 = ap (λ (t : ℕ). t * 16) (bit_and_ones 2 a) in
    let loop = two_digits i0 i1 i2 i3 b0 b1 b2 b3 out (a / 4) x (omega arith) (omega arith) in
    let byte : bit_or (a / 4 * 4) (x / 16) % 256 ≡ a = first_of a x ha x_lem in
    let bytes = three_bytes (a / 4 ∷ x ∷ 0 ∷ 0 ∷ []) in
    let whole_out = sym (append_assoc out (a ∷ []) (get_or bytes 1 0 ∷ get_or bytes 2 0 ∷ [])) in
    rw (loop, byte, some_out out a (get_or bytes 1 0 ∷ get_or bytes 2 0 ∷ []), whole_out)
      (take_but (out ++ a ∷ []) (get_or bytes 1 0 ∷ get_or bytes 2 0 ∷ []) 2 refl)
decode_from line_len (a ∷ b ∷ []) i0 i1 i2 i3 b0 b1 b2 b3 out (ha, (hb, _)) whole =
    let y = bit_and b 15 * 4 in
    let y_lem : y ≡ b % 16 * 4 = ap (λ (t : ℕ). t * 4) (bit_and_ones 4 b) in
    let loop =
      three_digits i0 i1 i2 i3 b0 b1 b2 b3 out (a / 4) (v1 a b) y (omega arith)
        (omega (arith, v1_lem a b hb)) (omega arith) in
    let other = digit-no_padding y (omega arith) in
    let byte = second_of a b y hb y_lem in
    let last = bit_or (y * 64) 0 % 256 in
    let whole_out = sym (append_assoc out (a ∷ b ∷ []) (last ∷ [])) in
    rw (loop, first_byte a b ha hb, byte, some_out out a (b ∷ last ∷ []), other, whole_out)
      (take_but (out ++ a ∷ b ∷ []) (last ∷ []) 1 refl)
decode_from line_len (a ∷ b ∷ c ∷ src) i0 i1 i2 i3 b0 b1 b2 b3 out (ha, (hb, (hc, small))) whole =
    let ends_line = leb 72 (line_len + 4) in
    let next = if ends_line then 0 else line_len + 4 in
    let more = encode_from next src in
    let loop =
      four_digits i0 i1 i2 i3 b0 b1 b2 b3 out (v0 a) (v1 a b) (v2 b c) (v3 c)
        (if ends_line then b'\n' ∷ more else more) (omega arith) (omega (arith, v1_lem a b hb))
        (omega (arith, v2_lem b c hc)) (omega (arith, v3_lem c)) in
    let s =
      at (digit (v0 a)) (digit (v1 a b)) (digit (v2 b c)) (digit (v3 c)) (v0 a) (v1 a b) (v2 b c)
        (v3 c) (out ++ a ∷ b ∷ c ∷ []) in
    let skipped = skip_newline s ends_line more in
    let rest =
      decode_from next src (digit (v0 a)) (digit (v1 a b)) (digit (v2 b c)) (digit (v3 c)) (v0 a)
        (v1 a b) (v2 b c) (v3 c) (out ++ a ∷ b ∷ c ∷ []) small
        (inr (
          digit-no_padding (v2 b c) (omega (arith, v2_lem b c hc)),
          digit-no_padding (v3 c) (omega (arith, v3_lem c)),
        )) in
    rw (loop, first_byte a b ha hb, second_byte a b c hb hc, third_byte b c hc, skipped)
      (rest ∙ append_assoc out (a ∷ b ∷ c ∷ []) src)

count_digit :
    (v : ℕ) → v < 64 → (rest : List ℕ) → count_known (digit v ∷ rest) ≡ count_known rest + 1
unfolding count_known
count_digit v h rest =
    let known : (v == 0x80) ≡ false = ground arith in rw (value_of-digit v h, known) refl

count_line :
    (ends_line : Bool) (more : List ℕ)
    → count_known (if ends_line then b'\n' ∷ more else more) ≡ count_known more
unfolding count_known value_of
count_line true more = refl
count_line false more = refl

count_padding : (n : ℕ) → n ≡ 2 → count_known (b'=' ∷ b'=' ∷ []) ≡ n
unfolding count_known value_of
count_padding n e = sym e

count_from :
    (line_len : ℕ) (src : List ℕ) → AreBytes src → count_known (encode_from line_len src) % 4 ≡ 0
unfolding encode_from
count_from line_len [] small = none_known
  where
    none_known : count_known [] % 4 ≡ 0
    none_known = unfold count_known in refl
count_from line_len (a ∷ []) (ha, _) =
    let x_lem : bit_and a 3 * 16 ≡ a % 4 * 16 = ap (λ (t : ℕ). t * 16) (bit_and_ones 2 a) in
    rw
      (
        count_digit (a / 4) (omega arith),
        count_digit (bit_and a 3 * 16) (omega arith),
        count_padding 2 refl,
      )
      refl
count_from line_len (a ∷ b ∷ []) (ha, (hb, _)) =
    let y_lem : bit_and b 15 * 4 ≡ b % 16 * 4 = ap (λ (t : ℕ). t * 4) (bit_and_ones 4 b) in
    rw
      (
        count_digit (v0 a) (omega arith),
        count_digit (v1 a b) (omega (arith, v1_lem a b hb)),
        count_digit (bit_and b 15 * 4) (omega arith),
        one_padding,
      )
      refl
  where
    one_padding : count_known (b'=' ∷ []) ≡ 1
    one_padding = unfold count_known value_of in refl
count_from line_len (a ∷ b ∷ c ∷ src) (ha, (hb, (hc, small))) =
    let ends_line = leb 72 (line_len + 4) in
    let next = if ends_line then 0 else line_len + 4 in
    rw
      (
        count_digit (v0 a) (omega arith),
        count_digit (v1 a b) (omega (arith, v1_lem a b hb)),
        count_digit (v2 b c) (omega (arith, v2_lem b c hc)),
        count_digit (v3 c) (omega (arith, v3_lem c)),
        count_line ends_line (encode_from next src),
      )
      (omega (arith, count_from next src small))

-- Any bytes are decoded from their encoding, line ends and padding included, whatever stands in the
-- arrays of the decoder at first.
pub decode-encode : (junk : ℕ) (src : List ℕ) → AreBytes src → decode junk (encode src) ≡ some src
unfolding decode encode
decode-encode junk src small =
    let whole : count_known (encode_from 0 src) % 4 ≡ 0 = count_from 0 src small in
    rw whole
      (ap some (decode_from 0 src junk junk junk junk junk junk junk junk [] small (inl refl)))
