-- ===== src/Prelude/Text.antt =====
-- Text as the list of its code points.
use Prim.Native.Nat.{ℕ}
use mathlib.Core.Path.{◌≡◌, refl, ap₂}
use mathlib.Core.Bool.{Bool, true, false, ◌&&◌}
use native.Mathlib.Omega.{arith}
use opticon.Prelude.Tests.{◌==◌, ==_iff, and-eq-true}
use Prim.Native.Char.{code}
use Prim.Native.String.{String}
use mathlib.Core.List.{List, [], ◌∷◌}

abbrev pub codes : String → List ℕ
codes String.[] = []
codes (String.◌∷◌ c s) = code c ∷ codes s

-- `strcmp` on texts before their NUL
unfoldable pub same : List ℕ → List ℕ → Bool
same [] [] = true
same [] (_ ∷ _) = false
same (_ ∷ _) [] = false
same (c ∷ cs) (d ∷ ds) = (c == d) && same cs ds

pub same_self : (cs : List ℕ) → same cs cs ≡ true
unfolding same
same_self [] = refl
same_self (c ∷ cs) = let e : (c == c) ≡ true = ground arith in rw (e, same_self cs) refl

pub same-eq : (cs ds : List ℕ) → same cs ds ≡ true → cs ≡ ds
unfolding same
same-eq [] [] h = refl
same-eq [] (d ∷ ds) h = cc
same-eq (c ∷ cs) [] h = cc
same-eq (c ∷ cs) (d ∷ ds) h =
    let (e, k) = and-eq-true (c == d) (same cs ds) h in
    let e' = (==_iff c d).0 e in ap₂ (λ x xs. x ∷ xs) e' (same-eq cs ds k)
