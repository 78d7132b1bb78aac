-- ===== src/Ioport/Encint/Writing.antt =====
-- `ioport_write_encint` over any sink.
use native.Mathlib.Nat.{mul-div_cancel, div-eq_of_lt, mod-eq_of_lt}
use Prim.Native.Nat.{bit_and-bitwise}
use opticon.Prelude.{
  ℕ, zero, suc, ◌+◌, ◌*◌, ◌/◌, ◌%◌, ◌^◌, ◌<◌, ◌≤◌, ◌≡◌, refl, sym, ap, ◌∙◌, bit_and, bit_or, Bool,
  true, false, ◌||◌, not, Bool-cases, inl, inr, some, List, [], ◌∷◌, ◌++◌, append_assoc, append-nil,
  ltb, ◌==◌, if◌then◌else◌, arith,
}
use opticon.Prelude.Bits.{bit_and-halves, bit_and_ones, bit_and_shifted, two_pow_pos}
use opticon.Ioport.{Methods, IoPort, to_u8}
use opticon.Ioport.Stream.{Sink}
use opticon.Ioport.Flush.{IsIdle, write_byte_lem}
use opticon.Ioport.Strings.RoundTrip.{marked}
use opticon.Ioport.Encint.{byte_at, write_bytes, write_encint}

bit_and-le : (fuel a b : ℕ) → a < fuel → bit_and a b ≤ a
bit_and-le zero a b h = absurd (omega arith)
bit_and-le (suc fuel) zero b h = omega (arith, bit_and-bitwise zero b)
bit_and-le (suc fuel) (suc a) b h =
    omega (arith, bit_and-halves (suc a) b, bit_and-le fuel (suc a / 2) (b / 2) (omega arith))

-- the seven bits at place `k`
abbrev pub seven : ℕ → ℕ → ℕ
seven i k = i / 2 ^ (7 * k) % 128

-- the encoding, with `k` places left
abbrev pub encoded : ℕ → ℕ → Bool → List ℕ
encoded i zero started = []
encoded i (suc k) started =
    if not (seven i k == 0) || started
    then (if k == 0 then seven i k else seven i k + 128) ∷ encoded i k true
    else encoded i k false

shown_byte :
    (b k : ℕ)
    → b < 128
    → to_u8 (if 7 * k == 0 then b else bit_or b 0x80) ≡ (if k == 0 then b else b + 128)
shown_byte b k h =
    let same : (7 * k == 0) ≡ (k == 0) = ground arith in
    elim (Bool-cases (k == 0)) [
      | inl e ↦ rw (same, e) (mod-eq_of_lt (omega arith))
      | inr e ↦ rw (same, e) (marked b h)
    ]

module _ (shl : ℕ → ℕ) where
  byte_at-low : (i k : ℕ) → k < 4 → byte_at shl i (7 * k) ≡ seven i k
  byte_at-low i k h =
      let small : ltb (7 * k) 22 ≡ true = ground arith in
      rw small (
        ap (λ (t : ℕ). to_u8 (t / 2 ^ (7 * k)))
          (bit_and_shifted (7 * k) i 0x7f
            ∙ ap (λ (t : ℕ). t * 2 ^ (7 * k)) (bit_and_ones 7 (i / 2 ^ (7 * k))))
        ∙ ap to_u8 (mul-div_cancel (seven i k) (two_pow_pos (7 * k)))
        ∙ mod-eq_of_lt (omega arith))

  wide : (k : ℕ) → 4 ≤ k → k < 9 → 2 ^ 28 ≤ 2 ^ (7 * k)
  wide zero big small = omega arith
  wide (suc zero) big small = omega arith
  wide (suc (suc zero)) big small = omega arith
  wide (suc (suc (suc zero))) big small = omega arith
  wide (suc (suc (suc (suc zero)))) big small = omega arith
  wide (suc (suc (suc (suc (suc zero))))) big small = omega arith
  wide (suc (suc (suc (suc (suc (suc zero)))))) big small = omega arith
  wide (suc (suc (suc (suc (suc (suc (suc zero))))))) big small = omega arith
  wide (suc (suc (suc (suc (suc (suc (suc (suc zero)))))))) big small = omega arith
  wide (suc (suc (suc (suc (suc (suc (suc (suc (suc k))))))))) big small = absurd (omega arith)

  byte_at-high : (i k : ℕ) → i < 2 ^ 28 → 4 ≤ k → k < 9 → byte_at shl i (7 * k) ≡ 0
  byte_at-high i k h big small =
      let msk = if ltb (7 * k) 22 then 0x7f * 2 ^ (7 * k) else shl (7 * k) in
      let none_left : bit_and i msk / 2 ^ (7 * k) ≡ 0 =
        div-eq_of_lt (omega (arith, bit_and-le (suc i) i msk (omega arith), wide k big small)) in
      ap to_u8 none_left

  module _ {S : Type 0} (m : Methods S) (sink : Sink m) where
    skip :
        (k : ℕ) (io : IoPort S) (i : ℕ)
        → i < 2 ^ 28
        → 4 ≤ k
        → k < 9
        → write_bytes m shl (suc k) io i false ≡ write_bytes m shl k io i false
    unfolding write_bytes
    skip k io i h big small = rw (byte_at-high i k h big small)

    write_bytes_lem :
        (k : ℕ) (io : IoPort S) (i : ℕ) (started : Bool)
        → IsIdle m sink io
        → k ≤ 4
        → (io' : IoPort S) × (write_bytes m shl k io i started ≡ some io')
          × IsIdle m sink io'
          × (sink.sent io'.storage ≡ sink.sent io.storage ++ encoded i k started)
    unfolding write_bytes
    write_bytes_lem zero io i started idle h =
        (io, refl, idle, sym (append-nil (sink.sent io.storage)))
    write_bytes_lem (suc k) io i started idle h =
        let low = byte_at-low i k (omega arith) in
        elim (Bool-cases (not (seven i k == 0) || started)) [
          | inl e ↦
              let out = if 7 * k == 0 then seven i k else bit_or (seven i k) 0x80 in
              let (io₁, done, idle₁, sent₁) = write_byte_lem m sink io out idle in
              let (io₂, done₂, idle₂, sent₂) = write_bytes_lem k io₁ i true idle₁ (omega arith) in
              let shown : to_u8 out ≡ (if k == 0 then seven i k else seven i k + 128) =
                shown_byte (seven i k) k (omega arith) in
              (
                io₂,
                rw (low, e, done) done₂,
                idle₂,
                rw e (
                    sent₂
                    ∙ ap (λ t. t ++ encoded i k true) sent₁
                    ∙ append_assoc (sink.sent io.storage) (to_u8 out ∷ []) (encoded i k true)
                    ∙ ap (λ (b : ℕ). sink.sent io.storage ++ b ∷ encoded i k true) shown),
              )
          | inr e ↦
              let (io₂, done₂, idle₂, sent₂) = write_bytes_lem k io i false idle (omega arith) in
              (io₂, rw (low, e) done₂, idle₂, rw e sent₂)
        ]

    -- A number below 2 ^ 28 that is not 0 is sent as its groups of seven bits, the highest first
    -- and without leading zeroes, all but the last marked; 0 is sent as one byte.
    pub write_encint_lem :
        (io : IoPort S) (i : ℕ)
        → IsIdle m sink io
        → i < 2 ^ 28
        → (io' : IoPort S) × (write_encint m shl io i ≡ some io')
          × IsIdle m sink io'
          × (sink.sent io'.storage
              ≡ sink.sent io.storage ++ (if i == 0 then 0 ∷ [] else encoded i 4 false))
    unfolding write_encint
    write_encint_lem io i idle h = elim (Bool-cases (i == 0)) [
      | inl e ↦
          let (io', done, idle', sent') = write_byte_lem m sink io 0 idle in
          (io', rw (e, done), idle', rw e sent')
      | inr e ↦
          let (io', done, idle', sent') = write_bytes_lem 4 io i false idle (omega arith) in
          (
            io',
            rw e (
                skip 8 io i h (omega arith) (omega arith)
                ∙ skip 7 io i h (omega arith) (omega arith)
                ∙ skip 6 io i h (omega arith) (omega arith)
                ∙ skip 5 io i h (omega arith) (omega arith)
                ∙ skip 4 io i h (omega arith) (omega arith)
                ∙ done),
            idle',
            rw e sent',
          )
    ]
