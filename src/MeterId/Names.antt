-- ===== src/MeterId/Names.antt =====
-- Labels through `makeid` and `id2str`.
use opticon.Prelude.{
  ℕ, zero, suc, ◌+◌, ◌*◌, ◌^◌, ◌<◌, ◌≤◌, ◌≡◌, refl, sym, ap, ◌∙◌, Bool, true, false, ◌&&◌, ◌||◌,
  not, List, [], ◌∷◌, ltb, leb, ◌==◌, if◌then◌else◌, get_or, arith, every_below, every_below-test,
  take, length, and-eq-true, ltb→lt, ==_iff,
}
use opticon.MeterId.{idtable, bshift, makeid, id_chars, last_used, id2str}
use opticon.MeterId.Fields.{code, packed, Codes, make_chars_lem, packed_bound, field_lem, step_up}

-- The characters that an id keeps: lower-case letters and `. - _ / @`.
unfoldable pub is_kept : ℕ → Bool
is_kept c =
    (leb b'a' c && leb c b'z')
    || (c == b'.')
    || (c == b'-')
    || (c == b'_')
    || (c == b'/')
    || (c == b'@')

abbrev pub IsLabel : List ℕ → Type 0
IsLabel [] = Unit
IsLabel (c ∷ cs) = (is_kept c ≡ true) × IsLabel cs

-- What the tables hold of such a character.
abbrev row : ℕ → Bool
row c =
    if is_kept c
    then ltb (code c) 32 && (get_or idtable (code c) 0 == c) && not (c == b' ')
    else true

rows : every_below row 128 ≡ true
unfolding every_below is_kept
rows = refl

is_kept-lt : (c : ℕ) → is_kept c ≡ true → c < 128
unfolding is_kept
is_kept-lt c h = ground arith

pub row_lem :
    (c : ℕ)
    → is_kept c ≡ true
    → (code c < 32) × (get_or idtable (code c) 0 ≡ c) × ((c == b' ') ≡ false)
row_lem c h =
    let all = every_below-test row 128 rows c (is_kept-lt c h) in
    let tests : (ltb (code c) 32 && (get_or idtable (code c) 0 == c) && not (c == b' ')) ≡ true =
      ap
        (λ b.
          if b
          then ltb (code c) 32 && (get_or idtable (code c) 0 == c) && not (c == b' ')
          else true)
        (sym h)
      ∙ all in
    let (first, ink) =
      and-eq-true (ltb (code c) 32 && (get_or idtable (code c) 0 == c)) (not (c == b' ')) tests in
    let (low, back) = and-eq-true (ltb (code c) 32) (get_or idtable (code c) 0 == c) first in
    (
      ltb→lt (code c) 32 low,
      (==_iff (get_or idtable (code c) 0) c).0 back,
      not-true (c == b' ') ink,
    )
  where
    not-true : (b : Bool) → not b ≡ true → b ≡ false
    not-true true e = cc
    not-true false e = refl

pub IsLabel-Codes : (cs : List ℕ) → IsLabel cs → Codes cs
IsLabel-Codes [] h = tt
IsLabel-Codes (c ∷ cs) (k, h) = (is_kept-lt c k, (row_lem c k).0, IsLabel-Codes cs h)

-- a label filled up with blanks
abbrev padded : ℕ → List ℕ → List ℕ
padded zero cs = []
padded (suc k) [] = b' ' ∷ padded k []
padded (suc k) (c ∷ cs) = c ∷ padded k cs

id_chars-padded :
    (k : ℕ) (cs : List ℕ) (q : ℕ)
    → IsLabel cs
    → k < 12
    → id_chars k (q * 2 ^ bshift (suc k) + packed k cs) ≡ padded k cs
unfolding id_chars
id_chars-padded zero cs q h small = refl
id_chars-padded (suc k) [] q h small =
    let none_up : q * 2 ^ bshift (suc (suc k)) + 0 ≡ (q * 32 + 0) * 2 ^ bshift (suc k) + 0 =
      omega (arith, step_up q 0 k) in
    rw (none_up, field_lem q 0 0 k (omega arith) (packed_bound k [] tt) (omega arith))
      (ap (λ t. b' ' ∷ t) (id_chars-padded k [] (q * 32 + 0) tt (omega arith)))
id_chars-padded (suc k) (c ∷ cs) q (kept, h) small =
    let (low, back, _) = row_lem c kept in
    let up : q * 2 ^ bshift (suc (suc k)) + packed (suc k) (c ∷ cs)
        ≡ (q * 32 + code c) * 2 ^ bshift (suc k) + packed k cs =
      omega (arith, step_up q (code c) k) in
    rw
      (
        up,
        field_lem q (code c) (packed k cs) k low (packed_bound k cs (IsLabel-Codes cs h))
            (omega arith),
        back,
      )
      (ap (λ t. c ∷ t) (id_chars-padded k cs (q * 32 + code c) h (omega arith)))

last_used-blank : (k out end : ℕ) → last_used (padded k []) out end ≡ end
unfolding last_used
last_used-blank zero out end = refl
last_used-blank (suc k) out end = last_used-blank k (out + 1) end

last_used-padded :
    (k : ℕ) (c : ℕ) (cs : List ℕ) (out end : ℕ)
    → IsLabel (c ∷ cs)
    → length (c ∷ cs) ≤ k
    → last_used (padded k (c ∷ cs)) out end ≡ out + length cs
unfolding last_used
last_used-padded zero c cs out end h fits = absurd (omega arith)
last_used-padded (suc k) c [] out end (kept, h) fits =
    ap (λ b. last_used (padded k []) (out + 1) (if b then end else out)) (row_lem c kept).2
    ∙ last_used-blank k (out + 1) out
    ∙ omega arith
last_used-padded (suc k) c (d ∷ cs) out end (kept, h) fits =
    ap (λ b. last_used (padded k (d ∷ cs)) (out + 1) (if b then end else out)) (row_lem c kept).2
    ∙ last_used-padded k d cs (out + 1) out h (omega arith)
    ∙ omega arith

take-padded : (k : ℕ) (cs : List ℕ) → length cs ≤ k → take (length cs) (padded k cs) ≡ cs
take-padded k [] fits = refl
take-padded zero (c ∷ cs) fits = absurd (omega arith)
take-padded (suc k) (c ∷ cs) fits = ap (λ t. c ∷ t) (take-padded k cs (omega arith))

-- A label of 1 to 11 characters that an id keeps is read back whole, whatever the type.
pub id2str-makeid :
    (label : List ℕ) (type pos : ℕ)
    → IsLabel label
    → 0 < length label
    → length label ≤ 11
    → id2str (makeid label (type * 2 ^ 62) pos) ≡ label
unfolding id2str makeid
id2str-makeid [] type pos h some_chars fits = absurd (omega arith)
id2str-makeid (c ∷ cs) type pos h some_chars fits =
    let read = make_chars_lem 11 (c ∷ cs) type (IsLabel-Codes (c ∷ cs) h) in
    let chars = ap (id_chars 11) read ∙ id_chars-padded 11 (c ∷ cs) type h (omega arith) in
    let used = last_used-padded 11 c cs 0 0 h fits in
    let whole : 0 + length cs + 1 ≡ length (c ∷ cs) = omega arith in
    rw (chars, used, whole) (take-padded 11 (c ∷ cs) fits)
