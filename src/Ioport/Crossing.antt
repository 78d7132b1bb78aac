-- ===== src/Ioport/Crossing.antt =====
-- Bit fields at the front of the stream that `ioport_read_bits` reads, within a byte and across two.
use opticon.Prelude.{
  ℕ, ◌+◌, ◌-◌, ◌*◌, ◌/◌, ◌%◌, ◌^◌, ◌<◌, ◌≤◌, ◌≡◌, sym, ap, ap₂, ◌∙◌, List, ◌++◌, append_assoc,
  arith, append_split,
}
use opticon.Ioport.Stream.{
  low_bits, low_bits-add, low_bits_mod, low_bits_join, low_bits_inj, length-low_bits,
}

-- The two fields of a read that crosses a byte, and what it leaves.
pub crossing_bits :
    (byte next a b : ℕ)
    → b ≤ 8
    → low_bits a byte ++ low_bits 8 next
      ≡ low_bits (a + b) (byte % 2 ^ a * 2 ^ b + next / 2 ^ (8 - b) % 2 ^ b)
        ++ low_bits (8 - b) next
crossing_bits byte next a b h =
    let e : 8 ≡ b + (8 - b) = omega arith in
    ap (λ n. low_bits a byte ++ low_bits n next) e
    ∙ ap₂ ◌++◌ (low_bits_mod a byte) (low_bits-add b (8 - b) next)
    ∙ sym (append_assoc (low_bits a (byte % 2 ^ a)) (low_bits b (next / 2 ^ (8 - b))) _)
    ∙ ap (λ t. t ++ low_bits (8 - b) next)
        (sym (low_bits_join a b (byte % 2 ^ a) (next / 2 ^ (8 - b))))

pub within_bits :
    (byte n s : ℕ) → low_bits (n + s) byte ≡ low_bits n (byte / 2 ^ s % 2 ^ n) ++ low_bits s byte
within_bits byte n s =
    low_bits-add n s byte ∙ ap (λ t. t ++ low_bits s byte) (low_bits_mod n (byte / 2 ^ s))

-- The number whose bits stand at the front of a stream, and what follows it.
pub front_field :
    (n v w : ℕ) (xs ys : List ℕ)
    → v < 2 ^ n
    → w < 2 ^ n
    → low_bits n v ++ xs ≡ low_bits n w ++ ys
    → (v ≡ w) × (xs ≡ ys)
front_field n v w xs ys hv hw e =
    let (bits, rest) =
      append_split (low_bits n v) (low_bits n w) xs ys
        (length-low_bits n v ∙ sym (length-low_bits n w)) e in
    (low_bits_inj n v w hv hw bits, rest)
