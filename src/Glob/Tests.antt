-- ===== src/Glob/Tests.antt =====
-- Patterns as the agent uses them.
use opticon.Prelude.{
  ◌≡◌, refl, true, false, some, List, ℕ, [], ◌∷◌, ◌++◌, length, arith, Each, ◌==◌, if◌then◌else◌,
}
use opticon.Prelude.Text.{codes}
use opticon.Glob.Stars.{IsPlain, IsChar, globcmp-plain, globcmp-star}
use opticon.Prelude.Text.{same}
use opticon.Glob.{answered, overread, globcmp}

IsPlain-globcmp : globcmp 9 (codes "eth0") (codes "eth0") ≡ some (answered true)
unfolding globcmp
IsPlain-globcmp = refl

star-globcmp : globcmp 20 (codes "eth0") (codes "eth*") ≡ some (answered false)
unfolding globcmp
star-globcmp = refl

star_end-globcmp : globcmp 20 (codes "eth0") (codes "*0") ≡ some overread
unfolding globcmp
star_end-globcmp = refl

inner-globcmp : globcmp 20 (codes "eth0") (codes "et?0") ≡ some (answered false)
unfolding globcmp
inner-globcmp = refl

abbrev eth : List ℕ
eth = codes "eth"

eth-IsPlain : Each IsPlain eth
eth-IsPlain = (ground arith, (ground arith, (ground arith, tt)))

eth-IsChar : Each IsChar eth
eth-IsChar = (ground arith, (ground arith, (ground arith, tt)))

globcmp-plain_example : globcmp 0 eth eth ≡ some (answered (same eth eth))
globcmp-plain_example = globcmp-plain 0 eth eth eth-IsPlain eth-IsChar

globcmp-star_example :
    globcmp 5 (eth ++ eth) (eth ++ b'*' ∷ [])
    ≡ some (if length eth == 0 then overread else answered false)
globcmp-star_example = globcmp-star 5 eth eth eth-IsPlain eth-IsChar (omega arith)
