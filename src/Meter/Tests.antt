-- ===== src/Meter/Tests.antt =====
-- Values of a meter, and blocks taken for another type.
use opticon.Prelude.{◌≡◌, refl, none, some, [], ◌∷◌}
use opticon.Prelude.Text.{codes}
use opticon.Meter.{
  Meter, words, texts, alloc, mtype_str, setcount, set_uint, set_str, get_uint, as_words, as_texts,
  element, put,
}

abbrev ints : Meter
ints = record { id = 32; count = 3; d = words (4 ∷ 5 ∷ 6 ∷ []); lastmodified = 9 }

set_uint-ints :
    set_uint 12 ints 1 8
    ≡ some (record { id = 32; count = 3; d = words (4 ∷ 8 ∷ 6 ∷ []); lastmodified = 12 })
unfolding set_uint as_words put
set_uint-ints = refl

-- The type test fails, and nothing is written.
set_str-ints : set_str 12 ints 1 (codes "on") ≡ some ints
unfolding set_str
set_str-ints = refl

-- A meter that became one of texts after it got its block for integers.
set_str-retyped :
    set_str 12 (record ints { id = mtype_str; d = words (0 ∷ 0 ∷ 0 ∷ []) }) 0 [] ≡ none
unfolding set_str as_texts put
set_str-retyped = refl

-- The other way round there is room.
get_uint-retyped : get_uint (record ints { d = texts ([] ∷ [] ∷ []) }) 2 ≡ some 0
unfolding get_uint as_words element
get_uint-retyped = refl

setcount-alloc :
    setcount 12 alloc 2
    ≡ some (record { id = 0; count = 2; d = words (0 ∷ 0 ∷ []); lastmodified = 12 })
unfolding setcount
setcount-alloc = refl
