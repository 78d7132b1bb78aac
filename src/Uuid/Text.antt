-- ===== src/Uuid/Text.antt =====
-- `uuid2str` and `mkuuid`, digit by digit.
use opticon.Prelude.{
  ℕ, ◌+◌, ◌-◌, ◌*◌, ◌/◌, ◌%◌, ◌^◌, ◌<◌, ◌≡◌, ◌≢◌, refl, sym, ap, ◌∙◌, bit_or, false, Option, none,
  some, List, [], ◌∷◌, ◌++◌, ◌==◌, arith,
}
use opticon.Uuid.{
  Uuid, uuidnil, digit, Reading, put_digit, read_char, read_chars, mkuuid, uuidbyte, hex_digit,
  hex_byte, uuid2str,
}
use opticon.Uuid.Digits.{div-four, high, bit_or-high, digit-hex_digit}

-- `n` digits of the first word, and `n` of the second, are read
abbrev first_word : ℕ → ℕ → Reading
first_word x n = record {
  res = record { msb = high x (64 - 4 * n); lsb = 0 };
  respos = n % 16;
  majpos = 2 - n / 16;
}

abbrev second_word : ℕ → ℕ → ℕ → Reading
second_word w x n = record {
  res = record { msb = w; lsb = high x (64 - 4 * n) };
  respos = n % 16;
  majpos = 1 - n / 16;
}

high_step :
    (x n : ℕ)
    → n < 16
    → bit_or (high x (64 - 4 * n)) (x / 2 ^ (60 - 4 * n) % 16 * 2 ^ (4 * (15 - n % 16)))
      ≡ high x (64 - 4 * (n + 1))
high_step x n h =
    let e = 60 - 4 * n in
    let before : 64 - 4 * n ≡ e + 4 = omega arith in
    let here : 4 * (15 - n % 16) ≡ e = omega arith in
    let behind : 64 - 4 * (n + 1) ≡ e = omega arith in rw (before, here, behind) (bit_or-high x e)

put_digit-first :
    (x n : ℕ)
    → n < 16
    → put_digit (first_word x n) (x / 2 ^ (60 - 4 * n) % 16) ≡ first_word x (n + 1)
unfolding put_digit
put_digit-first x n h = ground (arith, high_step x n h)

put_digit-second :
    (w x n : ℕ)
    → n < 16
    → put_digit (second_word w x n) (x / 2 ^ (60 - 4 * n) % 16) ≡ second_word w x (n + 1)
unfolding put_digit
put_digit-second w x n h = ground (arith, high_step x n h)

taken : Reading → Option ℕ → Reading
taken r o = elim o [ none ↦ r | some out ↦ put_digit r out ]

read_char-digit : (d : ℕ) (r : Reading) → d < 16 → read_char r (hex_digit d) ≡ put_digit r d
unfolding read_char taken
read_char-digit d r h = ap (taken r) (digit-hex_digit d h)

read_chars-digit :
    (d : ℕ) (cs : List ℕ) (r : Reading)
    → d < 16
    → r.majpos ≢ 0
    → read_chars (hex_digit d ∷ cs) r ≡ read_chars cs (put_digit r d)
unfolding read_chars
read_chars-digit d cs r h more =
    let open' : (r.majpos == 0) ≡ false = ground arith in rw (open', read_char-digit d r h)

read_chars-dash :
    (cs : List ℕ) (r : Reading) → r.majpos ≢ 0 → read_chars (b'-' ∷ cs) r ≡ read_chars cs r
unfolding read_chars read_char digit
read_chars-dash cs r more = let open' : (r.majpos == 0) ≡ false = ground arith in rw open'

read_chars-byte :
    (x j : ℕ) (cs : List ℕ) (r r' r'' : Reading)
    → j < 8
    → r.majpos ≢ 0
    → r'.majpos ≢ 0
    → put_digit r (x / 2 ^ (60 - 8 * j) % 16) ≡ r'
    → put_digit r' (x / 2 ^ (56 - 8 * j) % 16) ≡ r''
    → read_chars (hex_byte x j ++ cs) r ≡ read_chars cs r''
read_chars-byte x j cs r r' r'' h more more' e e' =
    let shift : 60 - 8 * j ≡ 56 - 8 * j + 4 = omega arith in
    let upper : uuidbyte x j / 16 ≡ x / 2 ^ (60 - 8 * j) % 16 =
      rw shift (omega (arith, div-four x (56 - 8 * j))) in
    let lower : uuidbyte x j % 16 ≡ x / 2 ^ (56 - 8 * j) % 16 = omega arith in
    read_chars-digit (uuidbyte x j / 16) (hex_digit (uuidbyte x j % 16) ∷ cs) r (omega arith) more
    ∙ ap (read_chars (hex_digit (uuidbyte x j % 16) ∷ cs)) (ap (put_digit r) upper ∙ e)
    ∙ read_chars-digit (uuidbyte x j % 16) cs r' (omega arith) more'
    ∙ ap (read_chars cs) (ap (put_digit r') lower ∙ e')

read_chars-first :
    (x j : ℕ) (cs : List ℕ)
    → j < 8
    → read_chars (hex_byte x j ++ cs) (first_word x (2 * j))
      ≡ read_chars cs (first_word x (2 * j + 2))
read_chars-first x j cs h =
    let a : 60 - 8 * j ≡ 60 - 4 * (2 * j) = omega arith in
    let b : 56 - 8 * j ≡ 60 - 4 * (2 * j + 1) = omega arith in
    let n : 2 * j + 2 ≡ 2 * j + 1 + 1 = omega arith in
    rw n (
      read_chars-byte x j cs (first_word x (2 * j)) (first_word x (2 * j + 1))
        (first_word x (2 * j + 1 + 1)) h (omega arith) (omega arith)
        (rw a (put_digit-first x (2 * j) (omega arith)))
        (rw b (put_digit-first x (2 * j + 1) (omega arith))))

read_chars-second :
    (w x j : ℕ) (cs : List ℕ)
    → j < 8
    → read_chars (hex_byte x j ++ cs) (second_word w x (2 * j))
      ≡ read_chars cs (second_word w x (2 * j + 2))
read_chars-second w x j cs h =
    let a : 60 - 8 * j ≡ 60 - 4 * (2 * j) = omega arith in
    let b : 56 - 8 * j ≡ 60 - 4 * (2 * j + 1) = omega arith in
    let n : 2 * j + 2 ≡ 2 * j + 1 + 1 = omega arith in
    rw n (
      read_chars-byte x j cs (second_word w x (2 * j)) (second_word w x (2 * j + 1))
        (second_word w x (2 * j + 1 + 1)) h (omega arith) (omega arith)
        (rw a (put_digit-second w x (2 * j) (omega arith)))
        (rw b (put_digit-second w x (2 * j + 1) (omega arith))))

high_none : (x : ℕ) → x < 2 ^ 64 → high x 64 ≡ 0
high_none x h = omega arith

high_all : (x : ℕ) → high x 0 ≡ x
high_all x = omega arith

read_chars-nil : (r : Reading) → read_chars [] r ≡ r
unfolding read_chars
read_chars-nil r = refl

module _ (u : Uuid) (h : u.msb < 2 ^ 64) (h' : u.lsb < 2 ^ 64) where
  low : List ℕ
  low =
      hex_byte u.lsb 0
      ++ (hex_byte u.lsb 1
          ++ b'-'
            ∷ (hex_byte u.lsb 2
                ++ (hex_byte u.lsb 3
                    ++ (hex_byte u.lsb 4
                        ++ (hex_byte u.lsb 5 ++ (hex_byte u.lsb 6 ++ hex_byte u.lsb 7))))))

  start : first_word u.msb 0 ≡ record { res = record { msb = 0; lsb = 0 }; respos = 0; majpos = 2 }
  start = ground (arith, high_none u.msb h)

  middle : first_word u.msb 16 ≡ second_word u.msb u.lsb 0
  middle = ground (arith, high_none u.lsb h', high_all u.msb)

  end : (second_word u.msb u.lsb 16).res ≡ u
  end = ground (arith, high_all u.lsb)

  read_low : read_chars low (second_word u.msb u.lsb 0) ≡ second_word u.msb u.lsb 16
  unfolding low
  read_low =
      let t8 : List ℕ = hex_byte u.lsb 7 ++ [] in
      let t7 : List ℕ = hex_byte u.lsb 6 ++ t8 in
      let t6 : List ℕ = hex_byte u.lsb 5 ++ t7 in
      let t5 : List ℕ = hex_byte u.lsb 4 ++ t6 in
      let t4 : List ℕ = hex_byte u.lsb 3 ++ t5 in
      let t3 : List ℕ = hex_byte u.lsb 2 ++ t4 in
      let t2 : List ℕ = b'-' ∷ t3 in
      let t1 : List ℕ = hex_byte u.lsb 1 ++ t2 in
      read_chars-second u.msb u.lsb 0 t1 (omega arith)
      ∙ read_chars-second u.msb u.lsb 1 t2 (omega arith)
      ∙ read_chars-dash t3 (second_word u.msb u.lsb 4) (omega arith)
      ∙ read_chars-second u.msb u.lsb 2 t4 (omega arith)
      ∙ read_chars-second u.msb u.lsb 3 t5 (omega arith)
      ∙ read_chars-second u.msb u.lsb 4 t6 (omega arith)
      ∙ read_chars-second u.msb u.lsb 5 t7 (omega arith)
      ∙ read_chars-second u.msb u.lsb 6 t8 (omega arith)
      ∙ read_chars-second u.msb u.lsb 7 [] (omega arith)
      ∙ read_chars-nil (second_word u.msb u.lsb 16)

  read_all : read_chars (uuid2str u) (first_word u.msb 0) ≡ second_word u.msb u.lsb 16
  unfolding uuid2str low
  read_all =
      let t10 : List ℕ = b'-' ∷ low in
      let t9 : List ℕ = hex_byte u.msb 7 ++ t10 in
      let t8 : List ℕ = hex_byte u.msb 6 ++ t9 in
      let t7 : List ℕ = b'-' ∷ t8 in
      let t6 : List ℕ = hex_byte u.msb 5 ++ t7 in
      let t5 : List ℕ = hex_byte u.msb 4 ++ t6 in
      let t4 : List ℕ = b'-' ∷ t5 in
      let t3 : List ℕ = hex_byte u.msb 3 ++ t4 in
      let t2 : List ℕ = hex_byte u.msb 2 ++ t3 in
      let t1 : List ℕ = hex_byte u.msb 1 ++ t2 in
      read_chars-first u.msb 0 t1 (omega arith)
      ∙ read_chars-first u.msb 1 t2 (omega arith)
      ∙ read_chars-first u.msb 2 t3 (omega arith)
      ∙ read_chars-first u.msb 3 t4 (omega arith)
      ∙ read_chars-dash t5 (first_word u.msb 8) (omega arith)
      ∙ read_chars-first u.msb 4 t6 (omega arith)
      ∙ read_chars-first u.msb 5 t7 (omega arith)
      ∙ read_chars-dash t8 (first_word u.msb 12) (omega arith)
      ∙ read_chars-first u.msb 6 t9 (omega arith)
      ∙ read_chars-first u.msb 7 t10 (omega arith)
      ∙ read_chars-dash low (first_word u.msb 16) (omega arith)
      ∙ ap (read_chars low) middle
      ∙ read_low

-- An identifier of two 64-bit words is read back from the text that is written for it.
pub mkuuid-uuid2str : (u : Uuid) → u.msb < 2 ^ 64 → u.lsb < 2 ^ 64 → mkuuid (some (uuid2str u)) ≡ u
unfolding mkuuid uuidnil
mkuuid-uuid2str u h h' =
    ap (λ (r : Reading). r.res)
      (ap (read_chars (uuid2str u)) (sym (start u h h')) ∙ read_all u h h')
    ∙ end u h h'
