-- ===== src/Prelude/Bits.antt =====
-- The native bit operations as arithmetic: fields that do not overlap, low masks, shifted masks.
use Prim.Native.Nat.{
  ℕ, zero, suc, ◌+◌, ◌-◌, ◌*◌, ◌/◌, ◌%◌, ◌^◌, ◌≤◌, ◌<◌, bit_and, bit_or, min, max, digits,
  bit_and-bitwise, bit_or-bitwise,
}
use mathlib.Core.Path.{◌≡◌, refl, ap, ◌∙◌, sym}
use native.Mathlib.Omega.{arith}
use native.Mathlib.Nat.{pow-suc, one-le-pow, div-add-mod, div-div-eq-div-mul}

-- Fuel beyond the number itself changes no digit.
module _ (tail : ℕ → ℕ) (digit : ℕ → ℕ → ℕ) where
  more_fuel : (a b n m : ℕ) → a ≤ n → a ≤ m → digits tail digit n a b ≡ digits tail digit m a b
  more_fuel zero b zero zero _ _ = refl
  more_fuel zero b zero (suc m) _ _ = refl
  more_fuel zero b (suc n) zero _ _ = refl
  more_fuel zero b (suc n) (suc m) _ _ = refl
  more_fuel (suc a) b zero m h _ = absurd (omega arith)
  more_fuel (suc a) b (suc n) zero _ k = absurd (omega arith)
  more_fuel (suc a) b (suc n) (suc m) h k =
      ap (λ (d : ℕ). d * 2 + digit (suc a % 2) (b % 2))
        (more_fuel (suc a / 2) (b / 2) n m (omega arith) (omega arith))

-- The lowest digit, and the rest.
pub bit_and-halves : (a b : ℕ) → bit_and a b ≡ 2 * bit_and (a / 2) (b / 2) + min (a % 2) (b % 2)
bit_and-halves zero b = omega (arith, bit_and-bitwise zero b, bit_and-bitwise zero (b / 2))
bit_and-halves (suc a) b = omega (
  arith,
  bit_and-bitwise (suc a) b,
  bit_and-bitwise (suc a / 2) (b / 2),
  more_fuel (λ _. 0) min (suc a / 2) (b / 2) a (suc a / 2) (omega arith) (omega arith),
)

pub bit_or-halves : (a b : ℕ) → bit_or a b ≡ 2 * bit_or (a / 2) (b / 2) + max (a % 2) (b % 2)
bit_or-halves zero b = omega (arith, bit_or-bitwise zero b, bit_or-bitwise zero (b / 2))
bit_or-halves (suc a) b = omega (
  arith,
  bit_or-bitwise (suc a) b,
  bit_or-bitwise (suc a / 2) (b / 2),
  more_fuel (λ y. y) max (suc a / 2) (b / 2) a (suc a / 2) (omega arith) (omega arith),
)

or_none : (n a : ℕ) → a ≤ n → bit_or a 0 ≡ a
or_none n zero h = refl
or_none zero (suc a) h = absurd (omega arith)
or_none (suc n) (suc a) h =
    omega (arith, bit_or-halves (suc a) 0, or_none n (suc a / 2) (omega arith))

and_none : (n a : ℕ) → a ≤ n → bit_and a 0 ≡ 0
and_none n zero h = refl
and_none zero (suc a) h = absurd (omega arith)
and_none (suc n) (suc a) h =
    omega (arith, bit_and-halves (suc a) 0, and_none n (suc a / 2) (omega arith))

pub two_pow_suc : (k : ℕ) → 2 ^ suc k ≡ 2 * 2 ^ k
two_pow_suc k = omega (arith, pow-suc 2 k)

pub two_pow_pos : (k : ℕ) → 0 < 2 ^ k
two_pow_pos k = one-le-pow k 2 (omega arith)

times_two_pow_suc : (q k : ℕ) → q * 2 ^ suc k ≡ 2 * (q * 2 ^ k)
times_two_pow_suc q k = omega (arith, ap (λ (t : ℕ). q * t) (two_pow_suc k))

-- A field shifted over `k` bits and one of `k` bits do not overlap.
pub bit_or-add : (k q r : ℕ) → r < 2 ^ k → bit_or (q * 2 ^ k) r ≡ q * 2 ^ k + r
bit_or-add zero q r h =
    let none_left : r ≡ 0 = omega arith in
    rw none_left (omega (arith, or_none (q * 2 ^ 0) (q * 2 ^ 0) (omega arith)))
bit_or-add (suc k) q r h = omega (
  arith,
  bit_or-halves (q * 2 ^ suc k) r,
  ap (λ (t : ℕ). bit_or t (r / 2))
      (let e : q * 2 ^ suc k / 2 ≡ q * 2 ^ k = omega (arith, times_two_pow_suc q k) in e),
  times_two_pow_suc q k,
  bit_or-add k q (r / 2) (omega (arith, two_pow_suc k)),
)

mod_twice : (a m : ℕ) → a % (2 * m) ≡ 2 * (a / 2 % m) + a % 2
mod_twice a m = omega (
  arith,
  div-add-mod a (2 * m),
  div-add-mod (a / 2) m,
  ap (λ (t : ℕ). m * t) (div-div-eq-div-mul a 2 m),
)

-- A mask of `k` ones keeps the remainder.
pub bit_and_ones : (k a : ℕ) → bit_and a (2 ^ k - 1) ≡ a % 2 ^ k
bit_and_ones zero a = omega (arith, and_none a a (omega arith))
bit_and_ones (suc k) a =
    let half : (2 ^ suc k - 1) / 2 ≡ 2 ^ k - 1 = omega (arith, two_pow_suc k) in
    let odd : (2 ^ suc k - 1) % 2 ≡ 1 = omega (arith, two_pow_suc k, two_pow_pos k) in
    let wide : a % 2 ^ suc k ≡ a % (2 * 2 ^ k) = ap (λ (t : ℕ). a % t) (two_pow_suc k) in
    omega (
      arith,
      bit_and-halves a (2 ^ suc k - 1),
      ap (λ (t : ℕ). bit_and (a / 2) t) half,
      bit_and_ones k (a / 2),
      mod_twice a (2 ^ k),
      wide,
      odd,
    )

-- A shifted mask reads the shifted number.
pub bit_and_shifted : (s a m : ℕ) → bit_and a (m * 2 ^ s) ≡ bit_and (a / 2 ^ s) m * 2 ^ s
bit_and_shifted zero a m =
    let whole : m * 2 ^ 0 ≡ m = omega arith in
    let same : a / 2 ^ 0 ≡ a = omega arith in rw (whole, same) (omega arith)
bit_and_shifted (suc s) a m =
    let half : m * 2 ^ suc s / 2 ≡ m * 2 ^ s = omega (arith, times_two_pow_suc m s) in
    let shift : a / 2 / 2 ^ s ≡ a / 2 ^ suc s =
      div-div-eq-div-mul a 2 (2 ^ s) ∙ ap (λ (t : ℕ). a / t) (sym (two_pow_suc s)) in
    omega (
      arith,
      bit_and-halves a (m * 2 ^ suc s),
      ap (λ (t : ℕ). bit_and (a / 2) t) half,
      bit_and_shifted s (a / 2) m,
      ap (λ (t : ℕ). bit_and t m * 2 ^ s) shift,
      times_two_pow_suc m s,
      times_two_pow_suc (bit_and (a / 2 ^ suc s) m) s,
    )

bit_or_below : (n a b : ℕ) → a + b ≤ n → bit_or a b ≡ bit_or b a
bit_or_below zero a b h =
    let e : a ≡ 0 = omega arith in let e' : b ≡ 0 = omega arith in rw (e, e') refl
bit_or_below (suc n) a b h =
    omega
      (arith, bit_or-halves a b, bit_or-halves b a, bit_or_below n (a / 2) (b / 2) (omega arith))

pub bit_or_comm : (a b : ℕ) → bit_or a b ≡ bit_or b a
bit_or_comm a b = bit_or_below (a + b) a b (omega arith)
