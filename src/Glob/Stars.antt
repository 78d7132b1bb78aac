-- ===== src/Glob/Stars.antt =====
-- Patterns without special characters, and patterns that end in a star.
use opticon.Prelude.{
  Bool-cases, inl, inr, ℕ, zero, suc, ◌+◌, ◌≤◌, ◌≡◌, ◌≢◌, refl, ◌∙◌, Bool, true, false, none, some,
  List, [], ◌∷◌, ◌++◌, length, Each, arith, ◌==◌, if◌then◌else◌,
}
use opticon.Prelude.Text.{same}
use opticon.Glob.{after_next, answered, overread, globcmp, first_loop, second_loop, start}

-- a character that stands for itself
abbrev pub IsPlain : ℕ → Type 0
IsPlain c = (c ≢ 0) × (c ≢ b'*') × (c ≢ b'%') × (c ≢ b'?') × (c ≢ b'\\')

abbrev pub IsChar : ℕ → Type 0
IsChar c = c ≢ 0

-- One plain character: the texts go on together, or they differ.
plain_step :
    (fuel c : ℕ) (m n : List ℕ)
    → IsPlain c
    → first_loop fuel (c ∷ m) n ≡ (
        if c == (elim n [ [] ↦ 0 | d ∷ _ ↦ d ])
        then after_next n (first_loop fuel m)
        else some (answered false))
unfolding first_loop
plain_step fuel c [] [] (a, s, p, q, b) =
    let es : (c == b'*') ≡ false = ground arith in
    let ep : (c == b'%') ≡ false = ground arith in
    let eq : (c == b'?') ≡ false = ground arith in
    let eb : (c == b'\\') ≡ false = ground arith in rw (es, ep, eq, eb) refl
plain_step fuel c [] (d ∷ n) (a, s, p, q, b) =
    let es : (c == b'*') ≡ false = ground arith in
    let ep : (c == b'%') ≡ false = ground arith in
    let eq : (c == b'?') ≡ false = ground arith in
    let eb : (c == b'\\') ≡ false = ground arith in rw (es, ep, eq, eb) refl
plain_step fuel c (e ∷ m) [] (a, s, p, q, b) =
    let es : (c == b'*') ≡ false = ground arith in
    let ep : (c == b'%') ≡ false = ground arith in
    let eq : (c == b'?') ≡ false = ground arith in
    let eb : (c == b'\\') ≡ false = ground arith in rw (es, ep, eq, eb) refl
plain_step fuel c (e ∷ m) (d ∷ n) (a, s, p, q, b) =
    let es : (c == b'*') ≡ false = ground arith in
    let ep : (c == b'%') ≡ false = ground arith in
    let eq : (c == b'?') ≡ false = ground arith in
    let eb : (c == b'\\') ≡ false = ground arith in rw (es, ep, eq, eb) refl

-- The two loops end for a pattern of plain characters with fuel or without, and the answer says
-- whether the text is the pattern.
pub globcmp-plain :
    (fuel : ℕ) (str glob : List ℕ)
    → Each IsPlain glob
    → Each IsChar str
    → globcmp fuel str glob ≡ some (answered (same glob str))
unfolding globcmp same
globcmp-plain fuel [] [] plain chars = refl
globcmp-plain fuel (d ∷ str) [] plain (k, chars) =
    let e : (d == 0) ≡ false = ground arith in rw e refl
globcmp-plain fuel [] (c ∷ glob) (p, plain) chars =
    let e : (c == 0) ≡ false = ground (arith, p.0) in plain_step fuel c glob [] p ∙ rw e refl
globcmp-plain fuel (d ∷ str) (c ∷ glob) (p, plain) (k, chars) = elim (Bool-cases (c == d)) [
  | inl e ↦
      plain_step fuel c glob (d ∷ str) p ∙ rw (e, globcmp-plain fuel str glob plain chars) refl
  | inr e ↦ plain_step fuel c glob (d ∷ str) p ∙ rw e refl
]

-- Behind a star that ends the pattern, the text is passed over to its end.
after_star :
    (fuel d : ℕ) (rest : List ℕ) (just : Bool)
    → IsChar d
    → Each IsChar rest
    → length rest + 1 ≤ fuel
    → second_loop fuel (record {
      m = [];
      n = d ∷ rest;
      ma = some [];
      na = d ∷ rest;
      pm = none;
      pn = [];
      just = just;
    })
      ≡ some (answered false)
unfolding second_loop
after_star zero d rest just k chars f = absurd (omega arith)
after_star (suc fuel) d [] just k chars f =
    let e : (0 == d) ≡ false = ground arith in
    let e' : (d == 0) ≡ false = ground arith in rw (e, e', second_loop) refl
after_star (suc fuel) d (d' ∷ rest) just k (k', chars) f =
    let e : (0 == d) ≡ false = ground arith in
    let e' : (d == 0) ≡ false = ground arith in
    let more : (d' == 0) ≡ false = ground arith in
    rw (e, e', more, second_loop) (after_star fuel d' rest false k' chars (omega arith))

one_star :
    (fuel : ℕ) (rest : List ℕ)
    → Each IsChar rest
    → length rest + 2 ≤ fuel
    → second_loop fuel (start (b'*' ∷ []) rest)
      ≡ some (if length rest == 0 then overread else answered false)
unfolding second_loop
one_star zero rest chars f = absurd (omega arith)
one_star (suc zero) rest chars f = absurd (omega arith)
one_star (suc (suc fuel)) [] chars f = refl
one_star (suc (suc fuel)) (d ∷ rest) (k, chars) f =
    let some_char : (length (d ∷ rest) == 0) ≡ false = ground arith in
    rw (some_char, second_loop) (after_star (suc fuel) d rest true k chars (omega arith))

-- A pattern of plain characters and a star behind them never matches a text that starts with those
-- characters: where more follows, the answer is false, and where nothing follows, the loop reads
-- behind the NUL of both texts, which it compares with each other. As many rounds as there are
-- characters more, and two, are enough.
pub globcmp-star :
    (fuel : ℕ) (prefix rest : List ℕ)
    → Each IsPlain prefix
    → Each IsChar rest
    → length rest + 2 ≤ fuel
    → globcmp fuel (prefix ++ rest) (prefix ++ b'*' ∷ [])
      ≡ some (if length rest == 0 then overread else answered false)
unfolding globcmp first_loop
globcmp-star fuel [] rest plain chars f = one_star fuel rest chars f
globcmp-star fuel (c ∷ prefix) rest (p, plain) chars f =
    let e : (c == c) ≡ true = ground arith in
    plain_step fuel c (prefix ++ b'*' ∷ []) (c ∷ prefix ++ rest) p
    ∙ rw e (globcmp-star fuel prefix rest plain chars f)
