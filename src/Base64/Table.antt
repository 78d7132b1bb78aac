-- ===== src/Base64/Table.antt =====
-- The two tables: each digit is found again, and the end of a line is not a digit.
use opticon.Prelude.{
  ℕ, ◌+◌, ◌*◌, ◌/◌, ◌%◌, ◌<◌, ◌≡◌, refl, ap, ◌∙◌, Bool, true, false, ◌&&◌, not, ◌==◌, arith,
  every_below, every_below-test, and-eq-true, ==_iff, bit_and, bit_or,
}
use opticon.Prelude.Bits.{bit_and_ones, bit_or-add}
use opticon.Base64.{digit, value_of, dtable, fill_table}

abbrev row : ℕ → Bool
row v = (value_of (digit v) == v) && not (digit v == b'=')

rows : every_below row 64 ≡ true
unfolding every_below value_of dtable fill_table
rows = refl

not-true : (b : Bool) → not b ≡ true → b ≡ false
not-true true e = cc
not-true false e = refl

pub value_of-digit : (v : ℕ) → v < 64 → value_of (digit v) ≡ v
value_of-digit v h =
    let (same, _) =
      and-eq-true (value_of (digit v) == v) (not (digit v == b'='))
        (every_below-test row 64 rows v h) in
    (==_iff (value_of (digit v)) v).0 same

pub digit-no_padding : (v : ℕ) → v < 64 → (digit v == b'=') ≡ false
digit-no_padding v h =
    let (_, other) =
      and-eq-true (value_of (digit v) == v) (not (digit v == b'='))
        (every_below-test row 64 rows v h) in
    not-true (digit v == b'=') other

pub value_of-newline : value_of b'\n' ≡ 0x80
unfolding value_of dtable fill_table
value_of-newline = refl

pub value_of-padding : value_of b'=' ≡ 0
unfolding value_of dtable fill_table
value_of-padding = refl

-- the four values of a block of three bytes
abbrev pub v0 : ℕ → ℕ
v0 a = a / 4

abbrev pub v1 : ℕ → ℕ → ℕ
v1 a b = bit_or (bit_and a 0x03 * 16) (b / 16)

abbrev pub v2 : ℕ → ℕ → ℕ
v2 b c = bit_or (bit_and b 0x0f * 4) (c / 64)

abbrev pub v3 : ℕ → ℕ
v3 c = bit_and c 0x3f

pub v1_lem : (a b : ℕ) → b < 256 → v1 a b ≡ a % 4 * 16 + b / 16
v1_lem a b h =
    ap (λ (t : ℕ). bit_or (t * 16) (b / 16)) (bit_and_ones 2 a)
    ∙ bit_or-add 4 (a % 4) (b / 16) (omega arith)

pub v2_lem : (b c : ℕ) → c < 256 → v2 b c ≡ b % 16 * 4 + c / 64
v2_lem b c h =
    ap (λ (t : ℕ). bit_or (t * 4) (c / 64)) (bit_and_ones 4 b)
    ∙ bit_or-add 2 (b % 16) (c / 64) (omega arith)

pub v3_lem : (c : ℕ) → v3 c ≡ c % 64
v3_lem c = bit_and_ones 6 c

-- The three bytes of four values.
pub first_byte : (a b : ℕ) → a < 256 → b < 256 → bit_or (v0 a * 4) (v1 a b / 16) % 256 ≡ a
first_byte a b h h' =
    let low : v1 a b / 16 ≡ a % 4 = omega (arith, v1_lem a b h') in
    ap (λ (t : ℕ). bit_or (a / 4 * 4) t % 256) low
    ∙ ap (λ (t : ℕ). t % 256) (bit_or-add 2 (a / 4) (a % 4) (omega arith))
    ∙ omega arith

pub second_byte : (a b c : ℕ) → b < 256 → c < 256 → bit_or (v1 a b * 16) (v2 b c / 4) % 256 ≡ b
second_byte a b c h h' =
    let low : v2 b c / 4 ≡ b % 16 = omega (arith, v2_lem b c h') in
    ap (λ (t : ℕ). bit_or (v1 a b * 16) t % 256) low
    ∙ ap (λ (t : ℕ). t % 256) (bit_or-add 4 (v1 a b) (b % 16) (omega arith))
    ∙ omega (arith, v1_lem a b h)

pub third_byte : (b c : ℕ) → c < 256 → bit_or (v2 b c * 64) (v3 c) % 256 ≡ c
third_byte b c h =
    ap (λ (t : ℕ). bit_or (v2 b c * 64) t % 256) (v3_lem c)
    ∙ ap (λ (t : ℕ). t % 256) (bit_or-add 6 (v2 b c) (c % 64) (omega arith))
    ∙ omega (arith, v2_lem b c h)
