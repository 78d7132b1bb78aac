-- ===== src/MeterId/Fields.antt =====
-- The five bits of each character: how `makeid` puts them in, and what the mask and the shift take
-- out.
use native.Mathlib.Nat.{mul-add-div_right, div-eq_of_lt}
use opticon.Prelude.{
  ℕ, zero, suc, ◌+◌, ◌-◌, ◌*◌, ◌/◌, ◌%◌, ◌^◌, ◌<◌, ◌≡◌, ap, ◌∙◌, bit_and, bit_or, true, false, List,
  [], ◌∷◌, ltb, ◌==◌, get_or, arith, lt→ltb,
}
use opticon.Prelude.Bits.{bit_and_ones, bit_and_shifted, bit_or-add, two_pow_suc, two_pow_pos}
use opticon.MeterId.{asciitable, mmask_name, bshift, make_chars}

abbrev pub code : ℕ → ℕ
code c = get_or asciitable c 0

-- the number that the characters of a label make, `k` of them left
abbrev pub packed : ℕ → List ℕ → ℕ
packed k [] = 0
packed zero (c ∷ cs) = 0
packed (suc k) (c ∷ cs) = code c * 2 ^ bshift (suc k) + packed k cs

abbrev pub Codes : List ℕ → Type 0
Codes [] = Unit
Codes (c ∷ cs) = (c < 128) × (code c < 32) × Codes cs

pub two_pow_five : (e : ℕ) → 2 ^ (e + 5) ≡ 32 * 2 ^ e
two_pow_five e =
    let shape : e + 5 ≡ suc (suc (suc (suc (suc e)))) = omega arith in
    rw shape (
      omega (
        arith,
        two_pow_suc e,
        two_pow_suc (suc e),
        two_pow_suc (suc (suc e)),
        two_pow_suc (suc (suc (suc e))),
        two_pow_suc (suc (suc (suc (suc e)))),
      ))

-- one character more, above the rest
pub step_up :
    (q d k : ℕ)
    → q * 2 ^ bshift (suc (suc k)) + d * 2 ^ bshift (suc k) ≡ (q * 32 + d) * 2 ^ bshift (suc k)
step_up q d k =
    let up : bshift (suc (suc k)) ≡ bshift (suc k) + 5 = omega arith in
    rw (up, two_pow_five (bshift (suc k))) (omega arith)

field_below : (d k : ℕ) → d < 32 → d * 2 ^ bshift (suc k) < 2 ^ bshift (suc (suc k))
field_below d k h =
    let up : bshift (suc (suc k)) ≡ bshift (suc k) + 5 = omega arith in
    rw (up, two_pow_five (bshift (suc k)))
      (below d (2 ^ bshift (suc k)) h (two_pow_pos (bshift (suc k))))
  where
    below : (d m : ℕ) → d < 32 → 0 < m → d * m < 32 * m
    below d m h k = grind arith

pub packed_bound : (k : ℕ) (cs : List ℕ) → Codes cs → packed k cs < 2 ^ bshift (suc k)
packed_bound k [] h = two_pow_pos (bshift (suc k))
packed_bound zero (c ∷ cs) h = omega arith
packed_bound (suc k) (c ∷ cs) (a, b, h) =
    let up : bshift (suc (suc k)) ≡ bshift (suc k) + 5 = omega arith in
    rw (up, two_pow_five (bshift (suc k)))
      (below (code c) (2 ^ bshift (suc k)) (packed k cs) b (packed_bound k cs h))
  where
    below : (d m r : ℕ) → d < 32 → r < m → d * m + r < 32 * m
    below d m r h k = grind arith

pub bit_or-field :
    (q d k : ℕ)
    → d < 32
    → bit_or (q * 2 ^ bshift (suc (suc k))) (d * 2 ^ bshift (suc k))
      ≡ (q * 32 + d) * 2 ^ bshift (suc k)
bit_or-field q d k h =
    bit_or-add (bshift (suc (suc k))) q (d * 2 ^ bshift (suc k)) (field_below d k h) ∙ step_up q d k

pub make_chars_lem :
    (k : ℕ) (cs : List ℕ) (q : ℕ)
    → Codes cs
    → make_chars k cs (q * 2 ^ bshift (suc k)) ≡ q * 2 ^ bshift (suc k) + packed k cs
unfolding make_chars
make_chars_lem k [] q h = omega arith
make_chars_lem zero (c ∷ cs) q h = omega arith
make_chars_lem (suc k) (c ∷ cs) q (a, b, h) =
    let known : ltb c 128 ≡ true = lt→ltb c 128 a in
    let d = code c in
    let joined = bit_or-field q d k b in
    let more : (suc k == 0) ≡ false = ground arith in
    let less : suc k - 1 ≡ k = omega arith in
    rw (more, known, less, joined)
      (make_chars_lem k cs (q * 32 + d) h ∙ omega (arith, step_up q d k))

-- The mask of the name covers each of the eleven characters.
masked : (id : ℕ) → bit_and id mmask_name ≡ id / 32 % 2 ^ 57 * 32
masked id =
    bit_and_shifted 5 id (2 ^ 57 - 1) ∙ ap (λ (t : ℕ). t * 32) (bit_and_ones 57 (id / 2 ^ 5))

field_of :
    (id k : ℕ)
    → k < 11
    → id / 32 % 2 ^ 57 * 32 / 2 ^ bshift (suc k) % 32 ≡ id / 2 ^ bshift (suc k) % 32
field_of id zero h = omega arith
field_of id (suc zero) h = omega arith
field_of id (suc (suc zero)) h = omega arith
field_of id (suc (suc (suc zero))) h = omega arith
field_of id (suc (suc (suc (suc zero)))) h = omega arith
field_of id (suc (suc (suc (suc (suc zero))))) h = omega arith
field_of id (suc (suc (suc (suc (suc (suc zero)))))) h = omega arith
field_of id (suc (suc (suc (suc (suc (suc (suc zero))))))) h = omega arith
field_of id (suc (suc (suc (suc (suc (suc (suc (suc zero)))))))) h = omega arith
field_of id (suc (suc (suc (suc (suc (suc (suc (suc (suc zero))))))))) h = omega arith
field_of id (suc (suc (suc (suc (suc (suc (suc (suc (suc (suc zero)))))))))) h = omega arith
field_of id (suc (suc (suc (suc (suc (suc (suc (suc (suc (suc (suc k))))))))))) h =
    absurd (omega arith)

top_of : (a m r : ℕ) → 0 < m → r < m → (a * m + r) / m ≡ a
top_of a m r pos h =
    let none_left : r / m ≡ 0 = div-eq_of_lt h in
    mul-add-div_right pos a r ∙ rw none_left (omega arith)

-- The bits that `id2str` looks up are those of the character.
pub field_lem :
    (q d r k : ℕ)
    → d < 32
    → r < 2 ^ bshift (suc k)
    → k < 11
    → bit_and (bit_and ((q * 32 + d) * 2 ^ bshift (suc k) + r) mmask_name / 2 ^ bshift (suc k)) 0x1f
      ≡ d
field_lem q d r k h h' small =
    let id = (q * 32 + d) * 2 ^ bshift (suc k) + r in
    bit_and_ones 5 (bit_and id mmask_name / 2 ^ bshift (suc k))
    ∙ ap (λ (t : ℕ). t / 2 ^ bshift (suc k) % 32) (masked id)
    ∙ field_of id k small
    ∙ ap (λ (t : ℕ). t % 32)
        (top_of (q * 32 + d) (2 ^ bshift (suc k)) r (two_pow_pos (bshift (suc k))) h')
    ∙ omega arith

-- The bits of one character, in place.
pub bit_and-field :
    (q d r k : ℕ)
    → d < 32
    → r < 2 ^ bshift (suc k)
    → bit_and ((q * 32 + d) * 2 ^ bshift (suc k) + r) (31 * 2 ^ bshift (suc k))
      ≡ d * 2 ^ bshift (suc k)
bit_and-field q d r k h h' =
    let m = 2 ^ bshift (suc k) in
    let id = (q * 32 + d) * m + r in
    bit_and_shifted (bshift (suc k)) id 31
    ∙ ap (λ (t : ℕ). t * m)
        (bit_and_ones 5 (id / m)
          ∙ ap (λ (t : ℕ). t % 32) (top_of (q * 32 + d) m r (two_pow_pos (bshift (suc k))) h')
          ∙ omega arith)
