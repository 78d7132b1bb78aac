-- ===== src/WordList/Split.antt =====
-- Splitting what was joined.
use opticon.Prelude.{
  ℕ, zero, suc, ◌+◌, ◌<◌, ◌≡◌, ◌≢◌, refl, sym, ap, ◌∙◌, true, false, none, some, List, [], ◌∷◌,
  ◌++◌, append-nil, length, Each, arith, ltb, ◌==◌, if◌then◌else◌,
}
use opticon.WordList.{wordsepcount_from, strchr, last_word, split_loop, split}

-- words with a separator between each two
abbrev pub join : ℕ → List ℕ → List (List ℕ) → List ℕ
join sep word [] = word
join sep word (w ∷ ws) = word ++ sep ∷ join sep w ws

-- a word without the separator
abbrev pub IsWord : ℕ → List ℕ → Type 0
IsWord sep word = Each (λ c. c ≢ sep) word

-- the last of the words is written whole: it has characters, and no line feed at its end
abbrev pub EndsWell : List ℕ → List (List ℕ) → Type 0
EndsWell word [] = last_word word ≡ word ∷ []
EndsWell word (w ∷ ws) = EndsWell w ws

strchr-behind :
    (sep : ℕ) (word rest : List ℕ)
    → IsWord sep word
    → strchr (word ++ sep ∷ rest) sep ≡ some (word, rest)
unfolding strchr
strchr-behind sep [] rest w = let e : (sep == sep) ≡ true = ground arith in rw e refl
strchr-behind sep (c ∷ word) rest (k, w) =
    let e : (c == sep) ≡ false = ground arith in rw (e, strchr-behind sep word rest w) refl

strchr-IsWord : (sep : ℕ) (word : List ℕ) → IsWord sep word → strchr word sep ≡ none
unfolding strchr
strchr-IsWord sep [] w = refl
strchr-IsWord sep (c ∷ word) (k, w) =
    let e : (c == sep) ≡ false = ground arith in rw (e, strchr-IsWord sep word w) refl

split_loop-join :
    (fuel sep : ℕ) (word : List ℕ) (ws : List (List ℕ))
    → IsWord sep word
    → Each (IsWord sep) ws
    → EndsWell word ws
    → length ws < fuel
    → split_loop fuel (join sep word ws) sep ≡ some (word ∷ ws)
unfolding split_loop
split_loop-join zero sep word ws h hs end f = absurd (omega arith)
split_loop-join (suc fuel) sep word [] h hs end f =
    rw (strchr-IsWord sep word h, split_loop) (ap some end)
split_loop-join (suc fuel) sep word (w ∷ ws) h (hw, hs) end f =
    rw (strchr-behind sep word (join sep w ws) h, split_loop)
      (rw (split_loop-join fuel sep w ws hw hs end (omega arith)) refl)

count-IsWord :
    (sep : ℕ) (word rest : List ℕ) (n : ℕ)
    → IsWord sep word
    → wordsepcount_from sep (word ++ rest) n ≡ wordsepcount_from sep rest n
unfolding wordsepcount_from
count-IsWord sep [] rest n w = refl
count-IsWord sep (c ∷ word) rest n (k, w) =
    let e : (c == sep) ≡ false = ground arith in
    ap (λ t. wordsepcount_from sep (word ++ rest) (if t then n + 1 else n)) e
    ∙ count-IsWord sep word rest n w

count-join :
    (sep : ℕ) (word : List ℕ) (ws : List (List ℕ)) (n : ℕ)
    → IsWord sep word
    → Each (IsWord sep) ws
    → wordsepcount_from sep (join sep word ws) n ≡ n + length ws
unfolding wordsepcount_from
count-join sep word [] n h hs =
    ap (λ t. wordsepcount_from sep t n) (sym (append-nil word))
    ∙ count-IsWord sep word [] n h
    ∙ omega arith
count-join sep word (w ∷ ws) n h (hw, hs) =
    let e : (sep == sep) ≡ true = ground arith in
    count-IsWord sep word (sep ∷ join sep w ws) n h
    ∙ ap (λ t. wordsepcount_from sep (join sep w ws) (if t then n + 1 else n)) e
    ∙ count-join sep w ws (n + 1) hw hs
    ∙ omega arith

-- Words that do not contain the separator, empty ones among them, are read back from the text that
-- has a separator between each two, and are counted right, if the last one has characters and does
-- not end in a line feed. As many rounds as there are words are enough.
pub split-join :
    (fuel sep : ℕ) (word : List ℕ) (ws : List (List ℕ))
    → IsWord sep word
    → Each (IsWord sep) ws
    → EndsWell word ws
    → length ws < fuel
    → split fuel (join sep word ws) sep
      ≡ some (record { argc = length (word ∷ ws); argv = word ∷ ws })
unfolding split
split-join fuel sep word ws h hs end f =
    let count : wordsepcount_from sep (join sep word ws) 1 ≡ 1 + length ws =
      count-join sep word ws 1 h hs in
    let exact : ltb (length (word ∷ ws)) (1 + length ws) ≡ false = ground arith in
    rw (split_loop-join fuel sep word ws h hs end f, count, exact)
      (ap (λ n. some (record { argc = n; argv = word ∷ ws })) (omega arith))
