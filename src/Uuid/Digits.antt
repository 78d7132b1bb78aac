-- ===== src/Uuid/Digits.antt =====
-- Digits of a word: how they are joined, and how they are written and read.
use native.Mathlib.Nat.{div-div-eq-div-mul}
use opticon.Prelude.{ℕ, suc, ◌+◌, ◌*◌, ◌/◌, ◌%◌, ◌^◌, ◌<◌, ◌≡◌, sym, ap, ◌∙◌, bit_or, some, arith}
use opticon.Prelude.Bits.{two_pow_suc, two_pow_pos, bit_or-add}
use opticon.Uuid.{digit, hex_digit}

pub two_pow_four : (e : ℕ) → 2 ^ (e + 4) ≡ 16 * 2 ^ e
two_pow_four e =
    let shape : e + 4 ≡ suc (suc (suc (suc e))) = omega arith in
    rw shape (
      omega (
        arith,
        two_pow_suc e,
        two_pow_suc (suc e),
        two_pow_suc (suc (suc e)),
        two_pow_suc (suc (suc (suc e))),
      ))

pub div-four : (x e : ℕ) → x / 2 ^ (e + 4) ≡ x / 2 ^ e / 16
div-four x e =
    let wide : 2 ^ (e + 4) ≡ 2 ^ e * 16 = omega (arith, two_pow_four e) in
    rw wide (sym (div-div-eq-div-mul x (2 ^ e) 16))

-- the digits of a word down to bit `e`
abbrev pub high : ℕ → ℕ → ℕ
high x e = x / 2 ^ e * 2 ^ e

below_sixteen : (r m : ℕ) → r < 16 → 0 < m → r * m < 16 * m
below_sixteen r m h k = grind arith

regroup : (y m : ℕ) → y / 16 * (16 * m) + y % 16 * m ≡ y * m
regroup y m =
    let parts : y / 16 * 16 + y % 16 ≡ y = omega arith in omega (arith, ap (λ (t : ℕ). t * m) parts)

pub bit_or-high : (x e : ℕ) → bit_or (high x (e + 4)) (x / 2 ^ e % 16 * 2 ^ e) ≡ high x e
bit_or-high x e =
    let y = x / 2 ^ e in
    let m = 2 ^ e in
    let small : y % 16 * m < 2 ^ (e + 4) =
      rw (two_pow_four e) (below_sixteen (y % 16) m (omega arith) (two_pow_pos e)) in
    bit_or-add (e + 4) (x / 2 ^ (e + 4)) (y % 16 * m) small
    ∙ rw (div-four x e, two_pow_four e) (regroup y m)

pub digit-hex_digit : (n : ℕ) → n < 16 → digit (hex_digit n) ≡ some n
unfolding digit
digit-hex_digit n h = ground arith
