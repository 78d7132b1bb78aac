-- ===== src/Glob.antt =====
-- src/libopticon/glob.c: `globcmp`. A text is the list of its characters, and reading at its end
-- gives the NUL. `overread` is a read behind the NUL, and `none` a second loop without fuel.
mod Stars
mod Tests
use opticon.Prelude.{
  ℕ, zero, suc, ◌+◌, Bool, true, false, ◌&&◌, ◌||◌, not, Option, none, some, ◌>>=◌, List, [], ◌∷◌,
  ◌==◌, if◌then◌else◌,
}

-- `*p`
abbrev pub char_at : List ℕ → ℕ
char_at [] = 0
char_at (c ∷ cs) = c

-- What comes of a call: its answer, or a read behind the NUL of one of the texts.
pub data Outcome : Type 0 where
  answered : Bool → Outcome
  overread : Outcome

-- `p + 1`, where that is not behind the NUL
abbrev pub next : List ℕ → Option (List ℕ)
next [] = none
next (c ∷ cs) = some cs

-- The test at a backslash: `(*m == '\\' && m[1] == '*') || (m[1] == '?')`.
abbrev pub is_escape : List ℕ → Bool
is_escape [] = false
is_escape (c ∷ cs) = ((c == b'\\') && (char_at cs == b'*')) || (char_at cs == b'?')

abbrev pub unescaped : List ℕ → List ℕ
unescaped [] = []
unescaped (c ∷ cs) = if is_escape (c ∷ cs) then cs else c ∷ cs

-- The variables of the second loop; `NULL` is `none`. `just` says that a star was just met.
pub record Cursor : Type 0 where
  pub m : List ℕ
  pub n : List ℕ
  pub ma : Option (List ℕ)
  pub na : List ℕ
  pub pm : Option (List ℕ)
  pub pn : List ℕ
  pub just : Bool

-- What a round of the second loop does: an answer, or where to go on. Beside them, `none` is a
-- cursor that is moved behind the NUL, where it is read next.
pub data Step : Type 0 where
  answer : Bool → Step
  go_on : Cursor → Step

pub mismatch : Cursor → Option Step
mismatch s = if char_at s.n == 0 then some (answer false) else elim s.pm [
  | some pm ↦ do
    pn ← next s.pn
    some (
        go_on
          (record s { m = pm; n = pn; pn = pn; pm = if char_at pn == b' ' then none else some pm }))
  | none ↦ elim s.ma [
    | some ma ↦ do
      na ← next s.na
      if char_at na == 0
          then some (answer false)
          else some (go_on (record s { m = ma; n = na; na = na }))
    | none ↦ some (answer false)
  ]
]

pub compare : Cursor → Option Step
unfolding mismatch
compare s =
    if char_at s.m == char_at s.n
    then (do m ← next s.m; n ← next s.n; some (go_on (record s { m = m; n = n; just = false })))
    else mismatch (record s { just = false })

pub second_step : Cursor → Option Step
unfolding compare
second_step s =
    if char_at s.m == b'*'
    then (do m ← next s.m; some (go_on (record s { m = m; ma = some m; na = s.n; just = true })))
    else if char_at s.m == b'%'
    then (do
      m ← next s.m
      some
          (go_on (record s { m = m; pm = if char_at s.n == b' ' then none else some m; pn = s.n })))
    else if (char_at s.m == b'?') && ((char_at s.n == 0) || s.just)
    then some (answer true)
    else if (char_at s.m == b'?') || (char_at s.m == b'\\')
    then compare (record s { m = unescaped s.m })
    else compare s

pub second_loop : ℕ → Cursor → Option Outcome
unfolding second_step
second_loop zero s = none
second_loop (suc fuel) s = elim (second_step s) [
  | none ↦ some overread
  | some step ↦ elim step [ answer b ↦ some (answered b) | go_on s' ↦ second_loop fuel s' ]
]

-- where the first loop jumps into the second
abbrev pub start : List ℕ → List ℕ → Cursor
start m n = record { m = m; n = n; ma = none; na = []; pm = none; pn = []; just = false }

-- Goes on behind a character of the text; the pattern's cursor is checked by its list.
abbrev pub after_next : List ℕ → (List ℕ → Option Outcome) → Option Outcome
after_next [] f = some overread
after_next (c ∷ cs) f = f cs

abbrev pub at_end : List ℕ → Option Outcome
at_end n = some (answered (char_at n == 0))

-- One character of the pattern in the first loop, given what the loop says behind it, and behind
-- the character that a backslash escapes. A question mark falls through to the test for the end.
abbrev pub first_step : ℕ → List ℕ → List ℕ → (after after_escape : Option Outcome) → Option Outcome
first_step fuel glob n after after_escape =
    let c = char_at glob in
    if (c == b'*') || (c == b'%')
    then second_loop fuel (start glob n)
    else if c == b'?'
    then (if char_at n == 0 then some (answered false) else after_next n at_end)
    else if (c == b'\\') && is_escape glob
    then (if char_at (unescaped glob) == char_at n then after_escape else some (answered false))
    else if c == char_at n
    then after
    else some (answered false)

-- The first loop.
pub first_loop : ℕ → List ℕ → List ℕ → Option Outcome
unfolding second_loop
first_loop fuel [] n = at_end n
first_loop fuel (c ∷ []) n = first_step fuel (c ∷ []) n (after_next n at_end) (some overread)
first_loop fuel (c ∷ d ∷ m) n =
    let after = after_next n (first_loop fuel (d ∷ m)) in
    let after_escape = after_next n (first_loop fuel m) in
    first_step fuel (c ∷ d ∷ m) n after after_escape

-- `globcmp`; the counters are not read.
pub globcmp : ℕ → List ℕ → List ℕ → Option Outcome
unfolding first_loop
globcmp fuel str glob = first_loop fuel glob str
