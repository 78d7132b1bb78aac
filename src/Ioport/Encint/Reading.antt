-- ===== src/Ioport/Encint/Reading.antt =====
-- `ioport_read_encint` over any source.
use native.Mathlib.Nat.{div-div-eq-div-mul, div-le_self}
use opticon.Prelude.{
  ℕ, zero, suc, ◌+◌, ◌*◌, ◌/◌, ◌%◌, ◌^◌, ◌<◌, ◌≡◌, ◌≢◌, refl, sym, ap, ◌∙◌, bit_and, bit_or, Bool,
  true, false, ◌&&◌, ◌||◌, not, Bool-cases, inl, inr, ◌⊎◌, Option, some, List, [], ◌∷◌, ◌++◌, ◌==◌,
  if◌then◌else◌, arith, every_below, every_below-test, and-eq-true, length,
}
use opticon.Prelude.Bits.{bit_and_ones, bit_or-add, two_pow_pos}
use opticon.Ioport.{Methods, IoPort}
use opticon.Ioport.Stream.{Source, two_pow-add}
use opticon.Ioport.BitReader.{read_byte_lem}
use opticon.Ioport.Encint.{read_bytes, read_encint}
use opticon.Ioport.Encint.Writing.{seven, encoded}

marks : every_below (λ n. (bit_and n 0x80 == 0) && not (bit_and (n + 128) 0x80 == 0)) 128 ≡ true
unfolding every_below
marks = refl

-- whether more bytes follow
last_mark : (b k : ℕ) → b < 128 → (bit_and (if k == 0 then b else b + 128) 0x80 == 0) ≡ (k == 0)
last_mark b k h =
    let (plain, more) =
      and-eq-true (bit_and b 0x80 == 0) (not (bit_and (b + 128) 0x80 == 0))
        (every_below-test _ 128 marks b h) in
    elim (Bool-cases (k == 0)) [
      | inl e ↦ rw e plain
      | inr e ↦ rw e (is_false (bit_and (b + 128) 0x80 == 0) more)
    ]
  where
    is_false : (t : Bool) → not t ≡ true → t ≡ false
    is_false true e = cc
    is_false false e = refl

low_seven : (b k : ℕ) → b < 128 → bit_and (if k == 0 then b else b + 128) 0x7f ≡ b
low_seven b k h = bit_and_ones 7 (if k == 0 then b else b + 128) ∙ ground arith

-- one group more
unrolled : (i k : ℕ) → i / 2 ^ (7 * k) ≡ i / 2 ^ (7 * suc k) * 128 + seven i k
unrolled i k =
    let up : 7 * suc k ≡ 7 * k + 7 = omega arith in
    let turned : 2 ^ 7 * 2 ^ (7 * k) ≡ 2 ^ (7 * k) * 128 = omega arith in
    let wide : i / 2 ^ (7 * suc k) ≡ i / 2 ^ (7 * k) / 128 =
      ap (λ (t : ℕ). i / 2 ^ t) up
      ∙ ap (λ (t : ℕ). i / t) (two_pow-add (7 * k) 7 ∙ turned)
      ∙ sym (div-div-eq-div-mul i (2 ^ (7 * k)) 128) in
    rw wide (omega arith)

joined :
    (r d : ℕ)
    → r < 2 ^ 28
    → d < 128
    → bit_or (if r == 0 then r else r * 2 ^ 7 % 2 ^ 64) d ≡ r * 128 + d
joined r d h h' =
    let shifted : (if r == 0 then r else r * 2 ^ 7 % 2 ^ 64) ≡ r * 2 ^ 7 = ground arith in
    rw shifted (bit_or-add 7 r d (omega arith))

smaller : (i m : ℕ) → i < 2 ^ 28 → 0 < m → i / m < 2 ^ 28
smaller i m h pos = omega (arith, div-le_self i m)

-- A place that is left out: it and those above it are 0.
unstarted :
    (i k : ℕ) (started : Bool)
    → (not (seven i k == 0) || started) ≡ false
    → (started ≡ true) ⊎ ((i / 2 ^ (7 * suc k) ≡ 0) × (i ≢ 0))
    → (i / 2 ^ (7 * suc k) ≡ 0) × (i / 2 ^ (7 * k) ≡ 0) × (i ≢ 0)
unstarted i k true e c = ground arith
unstarted i k false e (inl t) = cc
unstarted i k false e (inr (above, ne)) =
    let here : seven i k ≡ 0 = ground arith in
    (above, unrolled i k ∙ rw (above, here) (omega arith), ne)

length-encoded :
    (i k : ℕ) (started : Bool)
    → (started ≡ true) ⊎ ((i / 2 ^ (7 * suc k) ≡ 0) × (i ≢ 0))
    → 0 < length (encoded i (suc k) started)
length-encoded i zero started c = elim (Bool-cases (not (seven i 0 == 0) || started)) [
  | inl e ↦ rw e (omega arith)
  | inr e ↦ let (_, whole, ne) = unstarted i 0 started e c in absurd (ne (omega arith))
]
length-encoded i (suc k) started c = elim (Bool-cases (not (seven i (suc k) == 0) || started)) [
  | inl e ↦ rw e (omega arith)
  | inr e ↦
      let (_, here, ne) = unstarted i (suc k) started e c in
      rw e (length-encoded i k false (inr (here, ne)))
]

-- An encoding is not empty.
pub length-sent : (i : ℕ) → i < 2 ^ 28 → 0 < length (if i == 0 then 0 ∷ [] else encoded i 4 false)
length-sent i h = elim (Bool-cases (i == 0)) [
  | inl e ↦ rw e (omega arith)
  | inr e ↦
      let top : i / 2 ^ 28 ≡ 0 = omega arith in
      rw e (length-encoded i 3 false (inr (top, ground arith)))
]

module _ {S : Type 0} (m : Methods S) (source : Source m) where
  abbrev Back : Option (ℕ × IoPort S) → ℕ → List ℕ → Type 0
  Back r i rest =
      (back : IoPort S) × (r ≡ some (i, back))
      × source.Ready back.storage
      × (source.pending back.storage ≡ rest)

  abbrev behind : S → IoPort S
  behind s = record { storage = s; bitpos = 0; bitbuffer = 0 }

  round_lem :
      (k fuel : ℕ) (io : IoPort S) (i : ℕ) (more : List ℕ)
      → i < 2 ^ 28
      → source.Ready io.storage
      → source.pending io.storage ≡ (if k == 0 then seven i k else seven i k + 128) ∷ more
      → (s : S) × (read_bytes m (suc fuel) io (i / 2 ^ (7 * suc k)) ≡ (
          if k == 0
          then some (i / 2 ^ (7 * k), behind s)
          else read_bytes m fuel (behind s) (i / 2 ^ (7 * k))))
        × source.Ready s
        × (source.pending s ≡ more)
  unfolding read_bytes
  round_lem k fuel io i more h ready view =
      let b = if k == 0 then seven i k else seven i k + 128 in
      let (s, got, ready', left) = read_byte_lem m source io b more ready view in
      let r = i / 2 ^ (7 * suc k) in
      let res : bit_or (if r == 0 then r else r * 2 ^ 7 % 2 ^ 64) (bit_and b 0x7f)
          ≡ i / 2 ^ (7 * k) =
        ap (bit_or (if r == 0 then r else r * 2 ^ 7 % 2 ^ 64))
          (low_seven (seven i k) k (omega arith))
        ∙ joined r (seven i k) (smaller i (2 ^ (7 * suc k)) h (two_pow_pos (7 * suc k)))
            (omega arith)
        ∙ sym (unrolled i k) in
      let ends = last_mark (seven i k) k (omega arith) in (s, rw (got, ends, res), ready', left)

  read_bytes_lem :
      (k fuel : ℕ) (io : IoPort S) (i : ℕ) (started : Bool) (rest : List ℕ)
      → k < fuel
      → i < 2 ^ 28
      → (started ≡ true) ⊎ ((i / 2 ^ (7 * suc k) ≡ 0) × (i ≢ 0))
      → source.Ready io.storage
      → source.pending io.storage ≡ encoded i (suc k) started ++ rest
      → Back (read_bytes m fuel io (i / 2 ^ (7 * suc k))) i rest
  read_bytes_lem k zero io i started rest f h c ready view = absurd (omega arith)
  read_bytes_lem zero (suc fuel) io i started rest f h c ready view =
      elim (Bool-cases (not (seven i 0 == 0) || started)) [
        | inl e ↦
            let (s, got, ready', left) = round_lem 0 fuel io i rest h ready (rw e at view) in
            let whole : i / 2 ^ (7 * 0) ≡ i = omega arith in
            (behind s, got ∙ ap (λ (t : ℕ). some (t, behind s)) whole, ready', left)
        | inr e ↦ let (_, whole, ne) = unstarted i 0 started e c in absurd (ne (omega arith))
      ]
  read_bytes_lem (suc k) (suc fuel) io i started rest f h c ready view =
      elim (Bool-cases (not (seven i (suc k) == 0) || started)) [
        | inl e ↦
            let (s, got, ready', left) =
              round_lem (suc k) fuel io i (encoded i (suc k) true ++ rest) h ready (rw e at view) in
            let more : (suc k == 0) ≡ false = ground arith in
            let (back, done, ready₂, left₂) =
              read_bytes_lem k fuel (behind s) i true rest (omega arith) h (inl refl) ready' left in
            (back, got ∙ rw more done, ready₂, left₂)
        | inr e ↦
            let (above, here, ne) = unstarted i (suc k) started e c in
            let (back, done, ready₂, left₂) =
              read_bytes_lem k (suc fuel) io i false rest (omega arith) h (inr (here, ne)) ready
                (rw e at view) in
            (back, ap (read_bytes m (suc fuel) io) (above ∙ sym here) ∙ done, ready₂, left₂)
      ]

  -- What a number below 2 ^ 28 is sent as is read back as that number, and the source is left
  -- behind it, with fuel for four bytes.
  pub read_encint_lem :
      (io : IoPort S) (i : ℕ) (rest : List ℕ)
      → i < 2 ^ 28
      → source.Ready io.storage
      → source.pending io.storage ≡ (if i == 0 then 0 ∷ [] else encoded i 4 false) ++ rest
      → (back : IoPort S) × (read_encint m 4 io ≡ some (i, back))
        × source.Ready back.storage
        × (source.pending back.storage ≡ rest)
  unfolding read_encint
  read_encint_lem io i rest h ready view = elim (Bool-cases (i == 0)) [
    | inl e ↦
        let zero_sent : i ≡ 0 = ground arith in
        let (s, got, ready', left) = round_lem 0 3 io 0 rest (omega arith) ready (rw e at view) in
        (behind s, got ∙ ap (λ (t : ℕ). some (t, behind s)) (sym zero_sent), ready', left)
    | inr e ↦
        let top : i / 2 ^ 28 ≡ 0 = omega arith in
        let (back, done, ready', left) =
          read_bytes_lem 3 4 io i false rest (omega arith) h (inr (top, ground arith)) ready
            (rw e at view) in
        (back, ap (read_bytes m 4 io) (sym top) ∙ done, ready', left)
  ]
