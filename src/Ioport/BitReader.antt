-- ===== src/Ioport/BitReader.antt =====
-- `ioport_read_bits` over a source: each call takes bits off one stream.
use opticon.Prelude.{
  ℕ, ◌+◌, ◌-◌, ◌*◌, ◌/◌, ◌%◌, ◌^◌, ◌<◌, ◌≤◌, ◌≡◌, refl, sym, ap, ◌∙◌, List, [], ◌∷◌, ◌++◌,
  append_assoc, arith, ltb, ◌==◌, if◌then◌else◌, Bool-cases, inl, inr, true, false, dec_lt, length,
  length-append,
}
use opticon.Prelude.Bits.{two_pow_pos}
use native.Mathlib.Nat.{mod-lt}
use opticon.Ioport.{
  Methods, IoPort, to_u8, read, read_byte, load_byte, bits_of_byte, read_bits, first_or_zero,
}
use opticon.Ioport.Stream.{Source, low_bits, byte_bits, length-low_bits}
use opticon.Ioport.Crossing.{crossing_bits, within_bits, front_field}
use opticon.Ioport.Fields.{masked_field, joined_field, joined_field-lt, to_u8_shift}

module _ {S : Type 0} (m : Methods S) (k : Source m) where
  open k use {Ready, pending, read_ok}

  -- A reader between two calls: `bitpos` counts the bits taken from the byte at hand.
  pub record IsReading (io : IoPort S) : Type 0 where
    pub ready : Ready io.storage
    pub taken : io.bitpos ≤ 8

  -- the bits that are still to come
  unfoldable pub bits_left : IoPort S → List ℕ
  bits_left io =
      (if io.bitpos == 0 then [] else low_bits (8 - io.bitpos) io.bitbuffer)
      ++ byte_bits (pending io.storage)

  pub read_byte_lem :
      (io : IoPort S) (b : ℕ) (rest : List ℕ)
      → Ready io.storage
      → pending io.storage ≡ b ∷ rest
      → (s : S) × (read_byte m io ≡ (b, record { storage = s; bitpos = 0; bitbuffer = 0 }))
        × Ready s
        × (pending s ≡ rest)
  unfolding read_byte read
  read_byte_lem io b rest r e =
      let (s, got, ready, left) = read_ok io.storage (b ∷ []) rest r e in
      (
        s,
        ap (λ t. first_or_zero (t.0, record { storage = t.1; bitpos = 0; bitbuffer = 0 })) got,
        ready,
        left,
      )

  -- the stream once a byte is at hand
  abbrev loaded_bits : IoPort S → List ℕ
  loaded_bits io = low_bits (8 - io.bitpos) io.bitbuffer ++ byte_bits (pending io.storage)

  -- the outcome of a read of the field `v`
  abbrev pub Took : IoPort S → ℕ → List ℕ → ℕ × IoPort S → Type 0
  Took from v rest (res, io) =
      (res ≡ v)
      × IsReading io
      × (bits_left io ≡ rest)
      × (used : List ℕ) × (pending from.storage ≡ used ++ pending io.storage)

  take_within :
      (io : IoPort S) (n v : ℕ) (rest : List ℕ)
      → Ready io.storage
      → 0 < n
      → io.bitpos + n ≤ 8
      → v < 2 ^ n
      → loaded_bits io ≡ low_bits n v ++ rest
      → Took io v rest (bits_of_byte m io n)
  unfolding bits_left
  take_within io n v rest r some_bits room small e =
      let p = io.bitpos in
      let s = 8 - p - n in
      let res = io.bitbuffer / 2 ^ s % 2 ^ n in
      let X = byte_bits (pending io.storage) in
      let gap : 8 - p ≡ n + s = omega arith in
      let left : 8 - (p + n) ≡ s = omega arith in
      let split : low_bits n res ++ (low_bits s io.bitbuffer ++ X) ≡ low_bits n v ++ rest =
        sym (append_assoc (low_bits n res) (low_bits s io.bitbuffer) X)
        ∙ ap (λ t. t ++ X) (sym (within_bits io.bitbuffer n s))
        ∙ ap (λ t. low_bits t io.bitbuffer ++ X) (sym gap)
        ∙ e in
      let (value, others) = front_field n res v _ rest (mod-lt _ (two_pow_pos n)) small split in
      let inside : ltb 8 (n + p) ≡ false = ground arith in
      let no_more : n - n ≡ 0 = omega arith in
      let begun : (p + n == 0) ≡ false = ground arith in
      let whole : to_u8 (res * 1) ≡ res =
        (to_u8_shift (io.bitbuffer / 2 ^ s) n 0 (omega arith)).0 ∙ omega arith in
      rw (inside, no_more, masked_field io.bitbuffer n s (omega arith))
        (whole ∙ value, record { ready = r; taken = room }, rw (begun, left) others, [], refl)

  take_across :
      (io : IoPort S) (n v b : ℕ) (rest others : List ℕ)
      → Ready io.storage
      → io.bitpos ≤ 8
      → n ≤ 8
      → 8 < io.bitpos + n
      → v < 2 ^ n
      → pending io.storage ≡ b ∷ others
      → loaded_bits io ≡ low_bits n v ++ rest
      → Took io v rest (bits_of_byte m io n)
  unfolding bits_left
  take_across io n v b rest others r some_bits most full small next e =
      let p = io.bitpos in
      let a = 8 - p in
      let c = n - a in
      let (s', got, ready, left) = read_byte_lem io b others r next in
      let res = io.bitbuffer % 2 ^ a * 2 ^ c + b / 2 ^ (8 - c) % 2 ^ c in
      let sum : a + c ≡ n = omega arith in
      let field = b / 2 ^ (8 - c) in
      let fits : res < 2 ^ n = rw sum at (joined_field-lt io.bitbuffer field a c) in
      let split : low_bits n res ++ (low_bits (8 - c) b ++ byte_bits others)
          ≡ low_bits n v ++ rest =
        sym (append_assoc (low_bits n res) (low_bits (8 - c) b) (byte_bits others))
        ∙ ap (λ (t : ℕ). (low_bits t res ++ low_bits (8 - c) b) ++ byte_bits others) (sym sum)
        ∙ ap (λ t. t ++ byte_bits others) (sym (crossing_bits io.bitbuffer b a c (omega arith)))
        ∙ append_assoc (low_bits a io.bitbuffer) (low_bits 8 b) (byte_bits others)
        ∙ ap (λ t. low_bits a io.bitbuffer ++ byte_bits t) (sym next)
        ∙ e in
      let (value, after) = front_field n res v _ rest fits small split in
      let over : ltb 8 (n + p) ≡ true = ground arith in
      let flat : a - a ≡ 0 = omega arith in
      let more : (c == 0) ≡ false = ground arith in
      let unshifted : io.bitbuffer / 1 ≡ io.bitbuffer = omega arith in
      rw
        (
          over,
          flat,
          more,
          got,
          masked_field io.bitbuffer a 0 (omega arith),
          unshifted,
          masked_field b c (8 - c) (omega arith),
          joined_field io.bitbuffer field a c (omega arith),
        )
        (
          value,
          record { ready = ready; taken = omega arith },
          rw (more, left) after,
          b ∷ [],
          next ∙ ap (λ t. b ∷ t) (sym left),
        )

  -- the byte that a read starts from
  load_byte_lem :
      (io : IoPort S) (b : ℕ) (others : List ℕ)
      → Ready io.storage
      → io.bitpos ≡ 0
      → pending io.storage ≡ b ∷ others
      → (s : S) × (load_byte m io ≡ record { storage = s; bitpos = 0; bitbuffer = b })
        × Ready s
        × (pending s ≡ others)
  load_byte_lem io b others r e next =
      let (s, got, ready, left) = read_byte_lem io b others r next in
      let at : (io.bitpos == 0) ≡ true = ground arith in (s, rw (at, got), ready, left)

  -- From a byte at hand, a field is taken whether or not it ends in the next byte.
  take_loaded :
      (io : IoPort S) (n v : ℕ) (rest : List ℕ)
      → Ready io.storage
      → io.bitpos ≤ 8
      → 0 < n
      → n ≤ 8
      → v < 2 ^ n
      → loaded_bits io ≡ low_bits n v ++ rest
      → Took io v rest (bits_of_byte m io n)
  take_loaded io n v rest r some_bits pos most small e = elim (dec_lt 8 (io.bitpos + n)) [
    | no room ↦ take_within io n v rest r pos (omega arith) small e
    | yes full ↦ go (pending io.storage) refl full
  ]
    where
      go :
          (bytes : List ℕ)
          → pending io.storage ≡ bytes
          → 8 < io.bitpos + n
          → Took io v rest (bits_of_byte m io n)
      go [] none_left full = absurd (
          omega (
            arith,
            ap length e,
            length-append (low_bits (8 - io.bitpos) io.bitbuffer) (byte_bits (pending io.storage)),
            length-append (low_bits n v) rest,
            length-low_bits (8 - io.bitpos) io.bitbuffer,
            length-low_bits n v,
            ap (λ t. length (byte_bits t)) none_left,
          ))
      go (b ∷ others) next full =
          take_across io n v b rest others r some_bits most full small next e

  read_bits_from :
      (io : IoPort S) (n v : ℕ) (rest : List ℕ)
      → 0 < n
      → n ≤ 8
      → Took io v rest (bits_of_byte m (load_byte m io) n)
      → Took io v rest (read_bits m io n)
  unfolding read_bits
  read_bits_from io n v rest pos most took =
      let (res, reading, left, used, behind) = took in
      let few : ltb 8 n ≡ false = ground arith in
      let some_bits : (n == 0) ≡ false = ground arith in
      let stays : ltb 8 (bits_of_byte m (load_byte m io) n).1.bitpos ≡ false =
        ground (arith, reading.taken) in
      rw (few, some_bits, stays) (res, reading, left, used, behind)

  -- `ioport_read_bits` takes the next field of one to eight bits off the stream.
  pub read_bits_lem :
      (io : IoPort S) (n v : ℕ) (rest : List ℕ)
      → IsReading io
      → 0 < n
      → n ≤ 8
      → v < 2 ^ n
      → bits_left io ≡ low_bits n v ++ rest
      → Took io v rest (read_bits m io n)
  unfolding bits_left
  read_bits_lem io n v rest o pos most small e =
      read_bits_from io n v rest pos most (elim (Bool-cases (io.bitpos == 0)) [
        | inr begun ↦
            rw begun (take_loaded io n v rest o.ready o.taken pos most small (rw begun at e))
        | inl start ↦ go (pending io.storage) refl start
      ])
    where
      start_bits : (io.bitpos == 0) ≡ true → byte_bits (pending io.storage) ≡ low_bits n v ++ rest
      start_bits start = rw start at e

      go :
          (bytes : List ℕ)
          → pending io.storage ≡ bytes
          → (io.bitpos == 0) ≡ true
          → Took io v rest (bits_of_byte m (load_byte m io) n)
      go [] none_left start = absurd (
          omega (
            arith,
            ap length (start_bits start),
            ap (λ t. length (byte_bits t)) none_left,
            length-append (low_bits n v) rest,
            length-low_bits n v,
          ))
      go (b ∷ others) next start =
          let (s, loaded, ready, left) = load_byte_lem io b others o.ready (ground arith) next in
          let (value, reading, after, used, behind) =
            take_loaded (record { storage = s; bitpos = 0; bitbuffer = b }) n v rest ready
              (omega arith) pos most small
              (ap (λ t. low_bits 8 b ++ byte_bits t) left
                ∙ ap byte_bits (sym next)
                ∙ start_bits start) in
          rw loaded (value, reading, after, b ∷ used, next ∙ ap (λ t. b ∷ t) (sym left ∙ behind))
