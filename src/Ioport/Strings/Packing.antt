-- ===== src/Ioport/Strings/Packing.antt =====
-- The six-bit character set, and strings as streams of six-bit fields.
use opticon.Prelude.{
  ℕ, ◌^◌, ◌<◌, ◌≡◌, refl, sym, ap, ap₂, ◌∙◌, Bool, true, false, ◌&&◌, ◌||◌, some, List, [], ◌∷◌,
  ◌++◌, append_assoc, append-nil, arith, ltb, ◌==◌, ==_iff, length, every_below, every_below-test,
  Each, Bool-cases, inl, inr, ◌⊎◌, or-eq-true_right, and-eq-true, ltb→lt,
}
use opticon.Ioport.{Methods, IoPort, read_bits}
use opticon.Ioport.Stream.{Sink, Source, low_bits}
use opticon.Ioport.BitWriter.{IsOpen, bits_sent, write_bits_lem}
use opticon.Ioport.BitReader.{IsReading, bits_left, read_bits_lem}
use opticon.Ioport.Strings.{code_of, char_of, is_plain, any_plain, write_codes, read_codes}

-- A text whose characters are ASCII: not the NUL, and not the last one, for which `DECSET` has no
-- initialiser.
abbrev pub IsText : List ℕ → Type 0
IsText str = Each (λ c. (0 < c) × (c < 127)) str

-- what the tables promise of one character
round_trip_test : ℕ → Bool
unfolding code_of char_of
round_trip_test c = (code_of c == 255) || (ltb (code_of c) 64 && char_of (code_of c) == c)

table_holds : every_below round_trip_test 127 ≡ true
unfolding every_below round_trip_test
table_holds = refl

-- `DECSET` and `ENCSET` are inverse where a character has a code, and the code has six bits.
pub char_of-code_of :
    (c : ℕ) → c < 127 → (code_of c == 255) ≡ false → (code_of c < 2 ^ 6) × (char_of (code_of c) ≡ c)
unfolding round_trip_test
char_of-code_of c ascii h =
    let tested = every_below-test round_trip_test 127 table_holds c ascii in
    let good =
      or-eq-true_right (code_of c == 255) (ltb (code_of c) 64 && char_of (code_of c) == c) tested
        h in
    let (small, back) = and-eq-true (ltb (code_of c) 64) (char_of (code_of c) == c) good in
    (ltb→lt (code_of c) 64 small, (==_iff (char_of (code_of c)) c).0 back)

is_plain-code_of : (c : ℕ) → c < 127 → is_plain c ≡ some (code_of c == 255)
unfolding is_plain
is_plain-code_of c h = let low : ltb c 128 ≡ true = ground arith in rw low refl

-- The search of a text comes to an answer.
pub any_plain-IsText :
    (str : List ℕ) → IsText str → (any_plain str ≡ some true) ⊎ (any_plain str ≡ some false)
unfolding any_plain
any_plain-IsText [] text = inr refl
any_plain-IsText (c ∷ str) ((_, h), text) = elim (Bool-cases (code_of c == 255)) [
  | inl e ↦ inl (rw (is_plain-code_of c h, e) refl)
  | inr e ↦ rw (is_plain-code_of c h, e) (any_plain-IsText str text)
]

coded_text :
    (c : ℕ) (str : List ℕ)
    → c < 127
    → any_plain (c ∷ str) ≡ some false
    → ((code_of c == 255) ≡ false) × (any_plain str ≡ some false)
unfolding any_plain
coded_text c str h e = elim (Bool-cases (code_of c == 255)) [
  | inl k ↦ let wrong : some true ≡ some false = rw (is_plain-code_of c h, k) at e in cc
  | inr k ↦ (k, rw (is_plain-code_of c h, k) at e)
]

-- the bits of a packed string
abbrev pub packed_bits : List ℕ → List ℕ
packed_bits [] = []
packed_bits (c ∷ str) = low_bits 6 (code_of c) ++ packed_bits str

module _ {S : Type 0} (m : Methods S) where
  pub write_codes_lem :
      (k : Sink m) (io : IoPort S) (str : List ℕ)
      → IsOpen m k io
      → (io' : IoPort S) × (write_codes m io str ≡ some io')
        × IsOpen m k io'
        × (bits_sent m k io' ≡ bits_sent m k io ++ packed_bits str)
        × (more : List ℕ) × (k.sent io'.storage ≡ k.sent io.storage ++ more)
  unfolding write_codes
  write_codes_lem k io [] o =
      (io, refl, o, sym (append-nil (bits_sent m k io)), [], sym (append-nil (k.sent io.storage)))
  write_codes_lem k io (c ∷ str) o =
      let (io₁, done, open₁, bits₁, more₁, sent₁) =
        write_bits_lem m k io (code_of c) 6 o (omega arith) in
      let (io₂, rest, open₂, bits₂, more₂, sent₂) = write_codes_lem k io₁ str open₁ in
      (
        io₂,
        rw done rest,
        open₂,
        bits₂
            ∙ ap (λ t. t ++ packed_bits str) bits₁
            ∙ append_assoc (bits_sent m k io) (low_bits 6 (code_of c)) (packed_bits str),
        more₁ ++ more₂,
        sent₂ ∙ ap (λ t. t ++ more₂) sent₁ ∙ append_assoc (k.sent io.storage) more₁ more₂,
      )

  pub read_codes_lem :
      (k : Source m) (io : IoPort S) (str rest : List ℕ)
      → IsReading m k io
      → IsText str
      → any_plain str ≡ some false
      → bits_left m k io ≡ packed_bits str ++ rest
      → let (got, io') = read_codes m io (length str) in
        (got ≡ str)
        × IsReading m k io'
        × (bits_left m k io' ≡ rest)
        × (used : List ℕ) × (k.pending io.storage ≡ used ++ k.pending io'.storage)
  unfolding read_codes
  read_codes_lem k io [] rest o text h e = (refl, o, e, [], refl)
  read_codes_lem k io (c ∷ str) rest o ((_, low), text) h e =
      let (coded, others) = coded_text c str low h in
      let (small, back) = char_of-code_of c low coded in
      let (value, reading, left, used, behind) =
        read_bits_lem m k io 6 (code_of c) (packed_bits str ++ rest) o (omega arith) (omega arith)
          small (e ∙ append_assoc (low_bits 6 (code_of c)) (packed_bits str) rest) in
      let (got, reading', left', used', behind') =
        read_codes_lem k (read_bits m io 6).1 str rest reading text others left in
      (
        ap₂ ◌∷◌ (ap char_of value ∙ back) got,
        reading',
        left',
        used ++ used',
        behind ∙ ap (λ t. used ++ t) behind' ∙ sym (append_assoc used used' _),
      )
