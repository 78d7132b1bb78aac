-- ===== src/WordList/Tests.antt =====
-- A line of a table.
use opticon.Prelude.{ℕ, ◌≡◌, refl, some, List, [], ◌∷◌, length, arith, Each}
use opticon.Prelude.Text.{codes}
use opticon.WordList.{split, split_loop, strchr, wordsepcount_from}
use opticon.WordList.Split.{join, IsWord, split-join}

split-feed :
    split 5 (codes "a::b\n") b':'
    ≡ some (record { argc = 3; argv = codes "a" ∷ [] ∷ codes "b" ∷ [] })
unfolding split split_loop strchr wordsepcount_from
split-feed = refl

abbrev rest : List (List ℕ)
rest = [] ∷ codes "sda" ∷ []

rest-IsWord : Each (IsWord b':') rest
rest-IsWord = (tt, ((ground arith, (ground arith, (ground arith, tt))), tt))

split-join_example :
    split 3 (join b':' (codes "8") rest) b':'
    ≡ some (record { argc = length (codes "8" ∷ rest); argv = codes "8" ∷ rest })
split-join_example =
    split-join 3 b':' (codes "8") rest (ground arith, tt) rest-IsWord refl (omega arith)
