-- ===== src/WordList.antt =====
-- src/opticon-agent/wordlist.c: `wordlist_split` and `wordlist_add`. A text is its characters before
-- the NUL, and the array `argv` the list of its texts; `malloc` gives memory.
pub mod Split
mod Tests
use opticon.Prelude.{
  ℕ, zero, suc, ◌+◌, Option, none, some, ◌>>=◌, List, [], ◌∷◌, ◌++◌, length, ltb, ◌==◌,
  if◌then◌else◌,
}

-- `wordlist`, with the texts that were stored
pub record WordList : Type 0 where
  pub argc : ℕ
  pub argv : List (List ℕ)

abbrev pub create : WordList
create = record { argc = 0; argv = [] }

abbrev pub add : WordList → List ℕ → WordList
add arg elm = record { argc = arg.argc + 1; argv = arg.argv ++ elm ∷ [] }

unfoldable pub wordsepcount_from : ℕ → List ℕ → ℕ → ℕ
wordsepcount_from sep [] cnt = cnt
wordsepcount_from sep (c ∷ cs) cnt = wordsepcount_from sep cs (if c == sep then cnt + 1 else cnt)

abbrev pub wordsepcount : List ℕ → ℕ → ℕ
wordsepcount string sep = wordsepcount_from sep string 1

-- `strchr`: what stands before the character, and behind it
unfoldable pub strchr : List ℕ → ℕ → Option (List ℕ × List ℕ)
strchr [] sep = none
strchr (c ∷ cs) sep =
    let rest = (do (word, after) ← strchr cs sep; some (c ∷ word, after)) in
    if c == sep then some ([], cs) else rest

-- Takes a line feed at the end off.
abbrev pub chomp : List ℕ → List ℕ
chomp [] = []
chomp (c ∷ []) = if c == b'\n' then [] else c ∷ []
chomp (c ∷ d ∷ cs) = c ∷ chomp (d ∷ cs)

abbrev pub last_word : List ℕ → List (List ℕ)
last_word [] = []
last_word (c ∷ cs) = chomp (c ∷ cs) ∷ []

-- The loop and what is left behind the last separator.
unfoldable pub split_loop : ℕ → List ℕ → ℕ → Option (List (List ℕ))
split_loop zero crsr sep = none
split_loop (suc fuel) crsr sep = elim (strchr crsr sep) [
  | none ↦ some (last_word crsr)
  | some found ↦ do argv ← split_loop fuel found.1 sep; some (found.0 ∷ argv)
]

-- `wordlist_split`
unfoldable pub split : ℕ → List ℕ → ℕ → Option WordList
split fuel string sep = do
  argv ← split_loop fuel string sep
  let count = wordsepcount string sep
  some (record { argc = if ltb (length argv) count then length argv else count; argv = argv })
