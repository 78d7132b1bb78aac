-- ===== src/MeterId/Prefix.antt =====
-- `idgetprefix` on a label with a path separator.
use native.Mathlib.Nat.{mul-div_cancel}
use opticon.Prelude.{
  ℕ, zero, suc, ◌+◌, ◌*◌, ◌/◌, ◌^◌, ◌<◌, ◌≡◌, ◌≢◌, sym, ap, ◌∙◌, bit_and, true, false, Bool-cases,
  inl, inr, List, [], ◌∷◌, ◌++◌, ◌==◌, get_or, arith, length,
}
use opticon.Prelude.Bits.{two_pow_pos}
use opticon.MeterId.{idtable, mmask_name, bshift, makeid, prefix_chars, idgetprefix}
use opticon.MeterId.Fields.{
  code, packed, make_chars_lem, packed_bound, field_lem, step_up, bit_and-field, bit_or-field,
}
use opticon.MeterId.Names.{IsLabel, is_kept, row_lem, IsLabel-Codes}

abbrev pub Unslashed : List ℕ → Type 0
Unslashed [] = Unit
Unslashed (c ∷ cs) = ((c == b'/') ≡ false) × Unslashed cs

-- what the loop looks up for the character `c`
looked_up :
    (q c r k : ℕ)
    → is_kept c ≡ true
    → r < 2 ^ bshift (suc k)
    → get_or idtable
        (bit_and ((q * 32 + code c) * 2 ^ bshift (suc k) + r) (31 * 2 ^ bshift (suc k))
          / 2 ^ bshift (suc k))
        0
      ≡ c
looked_up q c r k kept h =
    let (low, back, _) = row_lem c kept in
    let m = 2 ^ bshift (suc k) in
    ap (λ (t : ℕ). get_or idtable (t / m) 0) (bit_and-field q (code c) r k low h)
    ∙ ap (λ (t : ℕ). get_or idtable t 0) (mul-div_cancel (code c) (two_pow_pos (bshift (suc k))))
    ∙ back

prefix_chars_lem :
    (k : ℕ) (cs ds : List ℕ) (q p : ℕ)
    → IsLabel (cs ++ b'/' ∷ ds)
    → Unslashed cs
    → length cs < k
    → prefix_chars k (q * 2 ^ bshift (suc k) + packed k (cs ++ b'/' ∷ ds)) (p * 2 ^ bshift (suc k))
      ≡ p * 2 ^ bshift (suc k) + packed k cs
unfolding prefix_chars
prefix_chars_lem zero cs ds q p h u f = absurd (omega arith)
prefix_chars_lem (suc k) [] ds q p (kept, h) u f =
    let up : q * 2 ^ bshift (suc (suc k)) + packed (suc k) (b'/' ∷ ds)
        ≡ (q * 32 + code b'/') * 2 ^ bshift (suc k) + packed k ds =
      omega (arith, step_up q (code b'/') k) in
    let found = looked_up q b'/' (packed k ds) k kept (packed_bound k ds (IsLabel-Codes ds h)) in
    rw (up, found) (omega arith)
prefix_chars_lem (suc k) (c ∷ cs) ds q p (kept, h) (other, u) f =
    let rest = cs ++ b'/' ∷ ds in
    let small = packed_bound k rest (IsLabel-Codes rest h) in
    let low = (row_lem c kept).0 in
    let up : q * 2 ^ bshift (suc (suc k)) + packed (suc k) (c ∷ rest)
        ≡ (q * 32 + code c) * 2 ^ bshift (suc k) + packed k rest =
      omega (arith, step_up q (code c) k) in
    let found = looked_up q c (packed k rest) k kept small in
    let part = bit_and-field q (code c) (packed k rest) k low small in
    let joined = bit_or-field p (code c) k low in
    rw (up, found, other, part, joined)
      (prefix_chars_lem k cs ds (q * 32 + code c) (p * 32 + code c) h u (omega arith)
        ∙ omega (arith, step_up p (code c) k))

code-ne-zero : (c : ℕ) → is_kept c ≡ true → code c ≢ 0
code-ne-zero c kept e =
    let (_, back, ink) = row_lem c kept in
    let blank : c ≡ b' ' = sym back ∙ ap (λ (t : ℕ). get_or idtable t 0) e in
    cc (sym ink ∙ ap (λ (t : ℕ). t == b' ') blank)

name_given :
    (c : ℕ) (cs : List ℕ) (type : ℕ)
    → IsLabel (c ∷ cs)
    → (bit_and (type * 2 ^ bshift 12 + packed 11 (c ∷ cs)) mmask_name == 0) ≡ false
name_given c cs type (kept, h) =
    let id = type * 2 ^ bshift 12 + packed 11 (c ∷ cs) in
    let up : id ≡ (type * 32 + code c) * 2 ^ bshift 11 + packed 10 cs =
      omega (arith, step_up type (code c) 10) in
    elim (Bool-cases (bit_and id mmask_name == 0)) [
      | inl e ↦
          let none_left : bit_and id mmask_name ≡ 0 = ground arith in
          let seen =
            field_lem type (code c) (packed 10 cs) 10 (row_lem c kept).0
              (packed_bound 10 cs (IsLabel-Codes cs h)) (omega arith) in
          absurd (
            code-ne-zero c kept (
              sym seen
              ∙ ap (λ (t : ℕ). bit_and (bit_and t mmask_name / 2 ^ bshift 11) 0x1f) (sym up)
              ∙ ap (λ (t : ℕ). bit_and (t / 2 ^ bshift 11) 0x1f) none_left))
      | inr e ↦ e
    ]

IsLabel-append : (cs ds : List ℕ) → IsLabel (cs ++ ds) → IsLabel cs
IsLabel-append [] ds h = tt
IsLabel-append (c ∷ cs) ds (k, h) = (k, IsLabel-append cs ds h)

-- The prefix of an id whose label has a separator is the id of what stands before it, without the
-- type.
pub idgetprefix-makeid :
    (c : ℕ) (cs ds : List ℕ) (type pos : ℕ)
    → IsLabel (c ∷ cs ++ b'/' ∷ ds)
    → Unslashed (c ∷ cs)
    → length (c ∷ cs) < 11
    → idgetprefix (makeid (c ∷ cs ++ b'/' ∷ ds) (type * 2 ^ 62) pos) ≡ makeid (c ∷ cs) 0 pos
unfolding idgetprefix makeid
idgetprefix-makeid c cs ds type pos h u f =
    let all = c ∷ cs ++ b'/' ∷ ds in
    let read = make_chars_lem 11 all type (IsLabel-Codes all h) in
    let given = name_given c (cs ++ b'/' ∷ ds) type h in
    rw (read, given)
      (prefix_chars_lem 11 (c ∷ cs) ds type 0 h u f
        ∙ sym (
            make_chars_lem 11 (c ∷ cs) 0
              (IsLabel-Codes (c ∷ cs) (IsLabel-append (c ∷ cs) (b'/' ∷ ds) h))))
