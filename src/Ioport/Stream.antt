-- ===== src/Ioport/Stream.antt =====
-- What the functions of a port need of its storage: a sink that takes every write and appends it,
-- and a source that serves what is pending, in order. The bits of a byte stream.
use opticon.Prelude.{
  ℕ, zero, suc, ◌+◌, ◌*◌, ◌/◌, ◌%◌, ◌^◌, ◌<◌, ◌≡◌, refl, sym, ap, ap₂, ◌∙◌, some, List, [], ◌∷◌,
  ◌++◌, append_assoc, append-nil, arith, length, length-append, get_or, drop,
}
use opticon.Prelude.Bits.{two_pow_suc, two_pow_pos}
use native.Mathlib.Nat.{
  div-div-eq-div-mul, div-add-mod, div-add-mod', mod-lt, mul-add-div_right, div-eq_of_lt,
  div-lt_iff_lt-mul,
}
use opticon.Ioport.{Methods}

module _ {S : Type 0} (m : Methods S) where
  pub record Sink : Type 1 where
    pub Ready : S → Type 0
    pub sent : S → List ℕ
    pub write_ok :
        (s : S) (bytes : List ℕ)
        → Ready s
        → (s' : S) × (m.write s bytes ≡ some s') × Ready s' × (sent s' ≡ sent s ++ bytes)

  pub record Source : Type 1 where
    pub Ready : S → Type 0
    pub pending : S → List ℕ
    pub read_ok :
        (s : S) (bytes rest : List ℕ)
        → Ready s
        → pending s ≡ bytes ++ rest
        → (s' : S) × (m.read s (length bytes) ≡ (some bytes, s')) × Ready s' × (pending s' ≡ rest)

-- The lowest `n` bits of a number, the highest first.
abbrev pub low_bits : ℕ → ℕ → List ℕ
low_bits zero v = []
low_bits (suc n) v = (v / 2 ^ n % 2) ∷ low_bits n v

-- The bits of a run of bytes.
abbrev pub byte_bits : List ℕ → List ℕ
byte_bits [] = []
byte_bits (b ∷ bs) = low_bits 8 b ++ byte_bits bs

pub byte_bits-append : (xs ys : List ℕ) → byte_bits (xs ++ ys) ≡ byte_bits xs ++ byte_bits ys
byte_bits-append [] ys = refl
byte_bits-append (x ∷ xs) ys =
    ap (λ t. low_bits 8 x ++ t) (byte_bits-append xs ys)
    ∙ sym (append_assoc (low_bits 8 x) (byte_bits xs) (byte_bits ys))

pub byte_bits-snoc : (xs : List ℕ) (y : ℕ) → byte_bits (xs ++ y ∷ []) ≡ byte_bits xs ++ low_bits 8 y
byte_bits-snoc xs y =
    byte_bits-append xs (y ∷ []) ∙ ap (λ t. byte_bits xs ++ t) (append-nil (low_bits 8 y))

pub length-low_bits : (n v : ℕ) → length (low_bits n v) ≡ n
length-low_bits zero v = refl
length-low_bits (suc n) v = ap suc (length-low_bits n v)

pub two_pow-add : (a b : ℕ) → 2 ^ (a + b) ≡ 2 ^ b * 2 ^ a
two_pow-add zero b = let e : 0 + b ≡ b = omega arith in rw e (omega arith)
two_pow-add (suc a) b =
    let e : suc a + b ≡ suc (a + b) = omega arith in
    rw (e, two_pow_suc (a + b), two_pow-add a b, two_pow_suc a) (omega arith)

-- The high bits stand before the low ones.
pub low_bits-add : (a b v : ℕ) → low_bits (a + b) v ≡ low_bits a (v / 2 ^ b) ++ low_bits b v
low_bits-add zero b v = ap (λ n. low_bits n v) (let e : 0 + b ≡ b = omega arith in e)
low_bits-add (suc a) b v =
    let e : suc a + b ≡ suc (a + b) = omega arith in
    rw e (
      ap₂ (λ d t. d % 2 ∷ t)
        (ap (λ (t : ℕ). v / t) (two_pow-add a b) ∙ sym (div-div-eq-div-mul v (2 ^ b) (2 ^ a)))
        (low_bits-add a b v))

-- A field of `n` bits does not see what stands above it.
pub low_bits-field : (n h r : ℕ) → low_bits n (h * 2 ^ n + r) ≡ low_bits n r
low_bits-field zero h r = refl
low_bits-field (suc n) h r =
    let e : h * 2 ^ suc n + r ≡ 2 * h * 2 ^ n + r =
      omega (arith, ap (λ (t : ℕ). h * t) (two_pow_suc n)) in
    let high : (2 * h * 2 ^ n + r) / 2 ^ n ≡ 2 * h + r / 2 ^ n =
      mul-add-div_right (two_pow_pos n) (2 * h) r in
    rw (e, high) (ap₂ ◌∷◌ (omega arith) (low_bits-field n (2 * h) r))

pub low_bits_mod : (n v : ℕ) → low_bits n v ≡ low_bits n (v % 2 ^ n)
low_bits_mod n v =
    ap (low_bits n) (sym (div-add-mod' v (2 ^ n))) ∙ low_bits-field n (v / 2 ^ n) (v % 2 ^ n)

-- A number is told by its bits.
pub low_bits_inj : (n v w : ℕ) → v < 2 ^ n → w < 2 ^ n → low_bits n v ≡ low_bits n w → v ≡ w
low_bits_inj zero v w hv hw e = omega arith
low_bits_inj (suc n) v w hv hw e =
    let top : v / 2 ^ n % 2 ≡ w / 2 ^ n % 2 = ap (λ l. get_or l 0 0) e in
    let rest : low_bits n v ≡ low_bits n w = ap (drop 1) e in
    let low : v % 2 ^ n ≡ w % 2 ^ n =
      low_bits_inj n (v % 2 ^ n) (w % 2 ^ n) (mod-lt v (two_pow_pos n)) (mod-lt w (two_pow_pos n))
        (sym (low_bits_mod n v) ∙ rest ∙ low_bits_mod n w) in
    let small_v : v / 2 ^ n < 2 =
      (div-lt_iff_lt-mul (two_pow_pos n)).1 (omega (arith, two_pow_suc n)) in
    let small_w : w / 2 ^ n < 2 =
      (div-lt_iff_lt-mul (two_pow_pos n)).1 (omega (arith, two_pow_suc n)) in
    let high : v / 2 ^ n ≡ w / 2 ^ n = omega arith in
    omega (arith, div-add-mod v (2 ^ n), div-add-mod w (2 ^ n), ap (λ (t : ℕ). 2 ^ n * t) high)

-- A number made of two fields has the bits of both.
pub low_bits_join :
    (p n h d : ℕ) → low_bits (p + n) (h * 2 ^ n + d % 2 ^ n) ≡ low_bits p h ++ low_bits n d
low_bits_join p n h d =
    let v = h * 2 ^ n + d % 2 ^ n in
    let high : v / 2 ^ n ≡ h =
      mul-add-div_right (two_pow_pos n) h (d % 2 ^ n)
      ∙ omega (arith, div-eq_of_lt (mod-lt d (two_pow_pos n))) in
    low_bits-add p n v
    ∙ ap₂ ◌++◌ (ap (low_bits p) high) (low_bits-field n h (d % 2 ^ n) ∙ sym (low_bits_mod n d))

pub length-byte_bits : (bs : List ℕ) → length (byte_bits bs) ≡ 8 * length bs
length-byte_bits [] = refl
length-byte_bits (b ∷ bs) =
    omega
      (arith, length-append (low_bits 8 b) (byte_bits bs), length-low_bits 8 b, length-byte_bits bs)
