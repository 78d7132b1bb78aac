-- ===== src/Ioport/Fields.antt =====
-- Bit fields inside a byte: what the masks and shifts of `ioport_write_bits` and
-- `ioport_read_bits` do to it.
use opticon.Prelude.{
  ℕ, zero, suc, ◌+◌, ◌-◌, ◌*◌, ◌/◌, ◌%◌, ◌^◌, ◌<◌, ◌≤◌, ◌≡◌, refl, sym, ap, ap₂, ◌∙◌, bit_and,
  bit_or, arith,
}
use opticon.Prelude.Bits.{bit_or-add, bit_and_ones, bit_and_shifted, two_pow_pos}
use opticon.Ioport.{bitmask, to_u8}
use opticon.Ioport.Stream.{two_pow-add}
use native.Mathlib.Nat.{
  mod-eq_of_lt, mod-lt, div-add-mod', mul-div_cancel, mul-mod_left, pow-le-pow_right,
  div-lt_iff_lt-mul,
}

bitmask-ones : (n : ℕ) → n ≤ 8 → bitmask n ≡ 2 ^ n - 1
bitmask-ones zero h = refl
bitmask-ones (suc zero) h = refl
bitmask-ones (suc (suc zero)) h = refl
bitmask-ones (suc (suc (suc zero))) h = refl
bitmask-ones (suc (suc (suc (suc zero)))) h = refl
bitmask-ones (suc (suc (suc (suc (suc zero))))) h = refl
bitmask-ones (suc (suc (suc (suc (suc (suc zero)))))) h = refl
bitmask-ones (suc (suc (suc (suc (suc (suc (suc zero))))))) h = refl
bitmask-ones (suc (suc (suc (suc (suc (suc (suc (suc zero)))))))) h = refl
bitmask-ones (suc (suc (suc (suc (suc (suc (suc (suc (suc n))))))))) h = absurd (omega arith)

-- `x & BITMASKS[n]`
pub bit_and-bitmask : (x n : ℕ) → n ≤ 8 → bit_and x (bitmask n) ≡ x % 2 ^ n
bit_and-bitmask x n h = ap (bit_and x) (bitmask-ones n h) ∙ bit_and_ones n x

two_pow_le : (n : ℕ) → n ≤ 8 → 2 ^ n ≤ 256
two_pow_le n h = pow-le-pow_right {n = 2} (omega arith) h

-- Shifting `n` bits up by `s` inside a byte loses nothing.
pub to_u8_shift :
    (x n s : ℕ)
    → n + s ≤ 8
    → (to_u8 (x % 2 ^ n * 2 ^ s) ≡ x % 2 ^ n * 2 ^ s) × (x % 2 ^ n * 2 ^ s < 2 ^ (n + s))
to_u8_shift x n s h =
    let small : x % 2 ^ n < 2 ^ n = mod-lt x (two_pow_pos n) in
    let wide : 2 ^ (n + s) ≡ 2 ^ s * 2 ^ n = two_pow-add n s in
    let room : x % 2 ^ n * 2 ^ s < 2 ^ (n + s) = rw wide (grind (arith, two_pow_pos s)) in
    (mod-eq_of_lt (omega (arith, two_pow_le (n + s) h)), room)

-- A byte with its first `p` bits in use takes `n` more and keeps `s` clear.
pub byte_append :
    (p n s buf x : ℕ)
    → p + (n + s) ≡ 8
    → buf < 256
    → buf % 2 ^ (n + s) ≡ 0
    → let y = bit_or buf (to_u8 (x % 2 ^ n * 2 ^ s)) in
      (y / 2 ^ s ≡ buf / 2 ^ (n + s) * 2 ^ n + x % 2 ^ n) × (y % 2 ^ s ≡ 0) × (y < 256)
byte_append p n s buf x e small clear =
    let h = buf / 2 ^ (n + s) in
    let (same, fits) = to_u8_shift x n s (omega arith) in
    let high : buf ≡ h * 2 ^ (n + s) = omega (arith, div-add-mod' buf (2 ^ (n + s))) in
    let sum : bit_or buf (to_u8 (x % 2 ^ n * 2 ^ s)) ≡ h * 2 ^ (n + s) + x % 2 ^ n * 2 ^ s =
      ap₂ bit_or high same ∙ bit_or-add (n + s) h (x % 2 ^ n * 2 ^ s) fits in
    let product : h * 2 ^ (n + s) + x % 2 ^ n * 2 ^ s ≡ (h * 2 ^ n + x % 2 ^ n) * 2 ^ s =
      rw (two_pow-add n s) (omega arith) in
    let whole : 2 ^ (n + s) * 2 ^ p ≡ 256 = sym (two_pow-add p (n + s)) ∙ ap (λ (t : ℕ). 2 ^ t) e in
    let room : h < 2 ^ p = (div-lt_iff_lt-mul (two_pow_pos (n + s))).1 (omega (arith, whole)) in
    let below : h * 2 ^ (n + s) + x % 2 ^ n * 2 ^ s < 256 = grind (arith, whole, room, fits) in
    rw (sum ∙ product) (
      mul-div_cancel (h * 2 ^ n + x % 2 ^ n) (two_pow_pos s),
      mul-mod_left (h * 2 ^ n + x % 2 ^ n) (2 ^ s),
      rw product at below,
    )

-- `(byte & (BITMASKS[n] << s)) >> s`
pub masked_field :
    (byte n s : ℕ)
    → n + s ≤ 8
    → bit_and byte (to_u8 (bitmask n * 2 ^ s)) / 2 ^ s ≡ byte / 2 ^ s % 2 ^ n
masked_field byte n s h =
    let mask : bitmask n ≡ (2 ^ n - 1) % 2 ^ n =
      bitmask-ones n (omega arith) ∙ sym (mod-eq_of_lt (omega (arith, two_pow_pos n))) in
    let kept : to_u8 (bitmask n * 2 ^ s) ≡ bitmask n * 2 ^ s =
      ap (λ t. to_u8 (t * 2 ^ s)) mask
      ∙ (to_u8_shift (2 ^ n - 1) n s h).0
      ∙ ap (λ t. t * 2 ^ s) (sym mask) in
    ap (λ t. bit_and byte t / 2 ^ s) kept
    ∙ ap (λ t. t / 2 ^ s) (bit_and_shifted s byte (bitmask n))
    ∙ mul-div_cancel (bit_and (byte / 2 ^ s) (bitmask n)) (two_pow_pos s)
    ∙ bit_and-bitmask (byte / 2 ^ s) n (omega arith)

-- A field of two bytes: `a` bits from the end of one, `b` from the start of the next.
pub joined_field :
    (byte next a b : ℕ)
    → a + b ≤ 8
    → bit_or (to_u8 (byte % 2 ^ a * 2 ^ b)) (next % 2 ^ b) ≡ byte % 2 ^ a * 2 ^ b + next % 2 ^ b
joined_field byte next a b h =
    ap (λ t. bit_or t (next % 2 ^ b)) (to_u8_shift byte a b h).0
    ∙ bit_or-add b (byte % 2 ^ a) (next % 2 ^ b) (mod-lt next (two_pow_pos b))

pub joined_field-lt : (x y a b : ℕ) → x % 2 ^ a * 2 ^ b + y % 2 ^ b < 2 ^ (a + b)
joined_field-lt x y a b =
    let left : x % 2 ^ a < 2 ^ a = mod-lt x (two_pow_pos a) in
    let right : y % 2 ^ b < 2 ^ b = mod-lt y (two_pow_pos b) in
    rw (two_pow-add a b) (grind (arith, left, right))
