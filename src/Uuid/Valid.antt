-- ===== src/Uuid/Valid.antt =====
-- `uuid2str` and `isuuid`.
use opticon.Prelude.{ℕ, ◌+◌, ◌/◌, ◌%◌, ◌<◌, ◌≡◌, refl, ◌∙◌, true, List, [], ◌∷◌, ◌++◌, arith}
use opticon.Uuid.{Uuid, scan, isuuid, uuidbyte, hex_digit, hex_byte, uuid2str}

scan-digit :
    (d : ℕ) (cs : List ℕ) (hexcnt dashcnt : ℕ)
    → d < 16
    → hexcnt < 32
    → dashcnt < 5
    → scan (hex_digit d ∷ cs) hexcnt dashcnt ≡ scan cs (hexcnt + 1) dashcnt
unfolding scan
scan-digit d cs hexcnt dashcnt h k l = ground arith

scan-dash :
    (cs : List ℕ) (hexcnt dashcnt : ℕ)
    → hexcnt < 33
    → dashcnt < 4
    → scan (b'-' ∷ cs) hexcnt dashcnt ≡ scan cs hexcnt (dashcnt + 1)
unfolding scan
scan-dash cs hexcnt dashcnt h k = ground arith

scan-byte :
    (x j : ℕ) (cs : List ℕ) (hexcnt dashcnt : ℕ)
    → hexcnt + 1 < 32
    → dashcnt < 5
    → scan (hex_byte x j ++ cs) hexcnt dashcnt ≡ scan cs (hexcnt + 2) dashcnt
scan-byte x j cs hexcnt dashcnt h k =
    let two : hexcnt + 2 ≡ hexcnt + 1 + 1 = omega arith in
    rw two (
      scan-digit (uuidbyte x j / 16) (hex_digit (uuidbyte x j % 16) ∷ cs) hexcnt dashcnt
        (omega arith) (omega arith) k
      ∙ scan-digit (uuidbyte x j % 16) cs (hexcnt + 1) dashcnt (omega arith) h k)

scan-nil : scan [] 32 4 ≡ true
unfolding scan
scan-nil = refl

-- What `uuid2str` writes passes `isuuid`, whatever the identifier.
pub isuuid-uuid2str : (u : Uuid) → isuuid (uuid2str u) ≡ true
unfolding isuuid uuid2str
isuuid-uuid2str u =
    let t19 : List ℕ = hex_byte u.lsb 7 ++ [] in
    let t18 : List ℕ = hex_byte u.lsb 6 ++ t19 in
    let t17 : List ℕ = hex_byte u.lsb 5 ++ t18 in
    let t16 : List ℕ = hex_byte u.lsb 4 ++ t17 in
    let t15 : List ℕ = hex_byte u.lsb 3 ++ t16 in
    let t14 : List ℕ = hex_byte u.lsb 2 ++ t15 in
    let t13 : List ℕ = b'-' ∷ t14 in
    let t12 : List ℕ = hex_byte u.lsb 1 ++ t13 in
    let t11 : List ℕ = hex_byte u.lsb 0 ++ t12 in
    let t10 : List ℕ = b'-' ∷ t11 in
    let t9 : List ℕ = hex_byte u.msb 7 ++ t10 in
    let t8 : List ℕ = hex_byte u.msb 6 ++ t9 in
    let t7 : List ℕ = b'-' ∷ t8 in
    let t6 : List ℕ = hex_byte u.msb 5 ++ t7 in
    let t5 : List ℕ = hex_byte u.msb 4 ++ t6 in
    let t4 : List ℕ = b'-' ∷ t5 in
    let t3 : List ℕ = hex_byte u.msb 3 ++ t4 in
    let t2 : List ℕ = hex_byte u.msb 2 ++ t3 in
    let t1 : List ℕ = hex_byte u.msb 1 ++ t2 in
    scan-byte u.msb 0 t1 0 0 (omega arith) (omega arith)
    ∙ scan-byte u.msb 1 t2 2 0 (omega arith) (omega arith)
    ∙ scan-byte u.msb 2 t3 4 0 (omega arith) (omega arith)
    ∙ scan-byte u.msb 3 t4 6 0 (omega arith) (omega arith)
    ∙ scan-dash t5 8 0 (omega arith) (omega arith)
    ∙ scan-byte u.msb 4 t6 8 1 (omega arith) (omega arith)
    ∙ scan-byte u.msb 5 t7 10 1 (omega arith) (omega arith)
    ∙ scan-dash t8 12 1 (omega arith) (omega arith)
    ∙ scan-byte u.msb 6 t9 12 2 (omega arith) (omega arith)
    ∙ scan-byte u.msb 7 t10 14 2 (omega arith) (omega arith)
    ∙ scan-dash t11 16 2 (omega arith) (omega arith)
    ∙ scan-byte u.lsb 0 t12 16 3 (omega arith) (omega arith)
    ∙ scan-byte u.lsb 1 t13 18 3 (omega arith) (omega arith)
    ∙ scan-dash t14 20 3 (omega arith) (omega arith)
    ∙ scan-byte u.lsb 2 t15 20 4 (omega arith) (omega arith)
    ∙ scan-byte u.lsb 3 t16 22 4 (omega arith) (omega arith)
    ∙ scan-byte u.lsb 4 t17 24 4 (omega arith) (omega arith)
    ∙ scan-byte u.lsb 5 t18 26 4 (omega arith) (omega arith)
    ∙ scan-byte u.lsb 6 t19 28 4 (omega arith) (omega arith)
    ∙ scan-byte u.lsb 7 [] 30 4 (omega arith) (omega arith)
    ∙ scan-nil
