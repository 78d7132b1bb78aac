-- ===== src/Prelude/Lists.antt =====
-- C arrays and buffers as lists with native indices.
use Prim.Native.Nat.{ℕ, zero, suc, ◌+◌, ◌-◌, ◌<◌, ◌≤◌}
use mathlib.Core.Path.{◌≡◌, refl, ap, ap₂, sym, ◌∙◌}
use mathlib.Core.Logic.{◌≢◌}
use mathlib.Core.List.{List, [], ◌∷◌, ◌++◌}
use native.Mathlib.Omega.{arith}

module _ {ℓ} {A : Type ℓ} where
  abbrev pub length : List A → ℕ
  length [] = 0
  length (_ ∷ xs) = suc (length xs)

  abbrev pub get_or : List A → ℕ → A → A
  get_or [] _ d = d
  get_or (x ∷ _) zero _ = x
  get_or (_ ∷ xs) (suc i) d = get_or xs i d

  -- A write out of range changes nothing.
  abbrev pub set : List A → ℕ → A → List A
  set [] _ _ = []
  set (_ ∷ xs) zero v = v ∷ xs
  set (x ∷ xs) (suc i) v = x ∷ set xs i v

  abbrev pub take : ℕ → List A → List A
  take zero _ = []
  take (suc n) [] = []
  take (suc n) (x ∷ xs) = x ∷ take n xs

  abbrev pub drop : ℕ → List A → List A
  drop zero xs = xs
  drop (suc n) [] = []
  drop (suc n) (x ∷ xs) = drop n xs

  abbrev pub replicate : ℕ → A → List A
  replicate zero _ = []
  replicate (suc n) x = x ∷ replicate n x

  abbrev pub Each {κ} : (A → Type κ) → List A → Type κ
  Each P [] = Unit
  Each P (x ∷ xs) = P x × Each P xs

  pub length-append : (xs ys : List A) → length (xs ++ ys) ≡ length xs + length ys
  length-append [] ys = omega arith
  length-append (x ∷ xs) ys = omega (arith, length-append xs ys)

  pub length-set : (xs : List A) (i : ℕ) (v : A) → length (set xs i v) ≡ length xs
  length-set [] i v = refl
  length-set (x ∷ xs) zero v = refl
  length-set (x ∷ xs) (suc i) v = ap suc (length-set xs i v)

  pub get_or-set_self :
      (xs : List A) (i : ℕ) (v d : A) → i < length xs → get_or (set xs i v) i d ≡ v
  get_or-set_self [] i v d h = absurd (omega arith)
  get_or-set_self (x ∷ xs) zero v d h = refl
  get_or-set_self (x ∷ xs) (suc i) v d h = get_or-set_self xs i v d (omega arith)

  pub get_or-set_ne :
      (xs : List A) {i j : ℕ} (v d : A) → i ≢ j → get_or (set xs i v) j d ≡ get_or xs j d
  get_or-set_ne [] v d h = refl
  get_or-set_ne (x ∷ xs) {i = zero} {j = zero} v d h = absurd (h refl)
  get_or-set_ne (x ∷ xs) {i = zero} {j = suc j} v d h = refl
  get_or-set_ne (x ∷ xs) {i = suc i} {j = zero} v d h = refl
  get_or-set_ne (x ∷ xs) {i = suc i} {j = suc j} v d h = get_or-set_ne xs v d (λ e. h (ap suc e))

  pub take_append : (xs ys : List A) → take (length xs) (xs ++ ys) ≡ xs
  take_append [] ys = refl
  take_append (x ∷ xs) ys = ap (λ t. x ∷ t) (take_append xs ys)

  pub drop_append : (xs ys : List A) → drop (length xs) (xs ++ ys) ≡ ys
  drop_append [] ys = refl
  drop_append (x ∷ xs) ys = drop_append xs ys

  pub take_nil : (n : ℕ) → take n [] ≡ []
  take_nil zero = refl
  take_nil (suc n) = refl

  pub drop_nil : (n : ℕ) → drop n [] ≡ []
  drop_nil zero = refl
  drop_nil (suc n) = refl

  pub take-append_le : (n : ℕ) (xs ys : List A) → n ≤ length xs → take n (xs ++ ys) ≡ take n xs
  take-append_le zero xs ys h = refl
  take-append_le (suc n) [] ys h = absurd (omega arith)
  take-append_le (suc n) (x ∷ xs) ys h = ap (λ t. x ∷ t) (take-append_le n xs ys (omega arith))

  pub drop-take : (r p : ℕ) (xs : List A) → drop r (take p xs) ≡ take (p - r) (drop r xs)
  drop-take zero p xs = ap (λ n. take n xs) (omega arith)
  drop-take (suc r) zero xs =
      let e : 0 ≡ 0 - suc r = omega arith in drop_nil (suc r) ∙ ap (λ n. take n (drop (suc r) xs)) e
  drop-take (suc r) (suc p) [] = sym (take_nil (suc p - suc r))
  drop-take (suc r) (suc p) (x ∷ xs) =
      let e : p - r ≡ suc p - suc r = omega arith in
      drop-take r p xs ∙ ap (λ n. take n (drop r xs)) e

  pub take-take : (k n : ℕ) (xs : List A) → k ≤ n → take k (take n xs) ≡ take k xs
  take-take zero n xs h = refl
  take-take (suc k) zero xs h = absurd (omega arith)
  take-take (suc k) (suc n) [] h = refl
  take-take (suc k) (suc n) (x ∷ xs) h = ap (λ t. x ∷ t) (take-take k n xs (omega arith))

  pub drop-add : (r k : ℕ) (xs : List A) → drop (r + k) xs ≡ drop k (drop r xs)
  drop-add zero k xs = ap (λ n. drop n xs) (omega arith)
  drop-add (suc r) k [] = drop_nil (suc r + k) ∙ sym (drop_nil k)
  drop-add (suc r) k (x ∷ xs) =
      let e : suc r + k ≡ suc (r + k) = omega arith in ap (λ n. drop n (x ∷ xs)) e ∙ drop-add r k xs

  pub length-drop-take : (r p : ℕ) (xs : List A) → length (drop r (take p xs)) ≤ p - r
  length-drop-take zero zero xs = omega arith
  length-drop-take zero (suc p) [] = omega arith
  length-drop-take zero (suc p) (x ∷ xs) = omega (arith, length-drop-take zero p xs)
  length-drop-take (suc r) zero xs = omega arith
  length-drop-take (suc r) (suc p) [] = omega arith
  length-drop-take (suc r) (suc p) (x ∷ xs) = omega (arith, length-drop-take r p xs)

  -- Two equal lists, cut at the same length.
  pub append_split :
      (us bs xs ys : List A) → length us ≡ length bs → us ++ xs ≡ bs ++ ys → (us ≡ bs) × (xs ≡ ys)
  append_split us bs xs ys e h = (
    sym (take_append us xs) ∙ ap₂ take e h ∙ take_append bs ys,
    sym (drop_append us xs) ∙ ap₂ drop e h ∙ drop_append bs ys,
  )

module _ {ℓ κ} {A : Type ℓ} (P : A → Type κ) where
  pub Each-set : (xs : List A) (i : ℕ) (v : A) → P v → Each P xs → Each P (set xs i v)
  Each-set [] i v p all = tt
  Each-set (x ∷ xs) zero v p (q, all) = (p, all)
  Each-set (x ∷ xs) (suc i) v p (q, all) = (q, Each-set xs i v p all)

  pub Each-replicate : (n : ℕ) (x : A) → P x → Each P (replicate n x)
  Each-replicate zero x p = tt
  Each-replicate (suc n) x p = (p, Each-replicate n x p)

  pub Each-drop : (n : ℕ) (xs : List A) → Each P xs → Each P (drop n xs)
  Each-drop zero xs all = all
  Each-drop (suc n) [] all = tt
  Each-drop (suc n) (x ∷ xs) (p, all) = Each-drop n xs all

  -- A write at `i` leaves what stands after it.
  pub Each-drop-set :
      (i : ℕ) (xs : List A) (v : A) → Each P (drop i xs) → Each P (drop (suc i) (set xs i v))
  Each-drop-set i [] v all = tt
  Each-drop-set zero (x ∷ xs) v (p, all) = all
  Each-drop-set (suc i) (x ∷ xs) v all = Each-drop-set i xs v all

module _ {ℓ} {A : Type ℓ} where
  pub length-replicate : (n : ℕ) (x : A) → length (replicate n x) ≡ n
  length-replicate zero x = refl
  length-replicate (suc n) x = ap suc (length-replicate n x)

  pub drop_all : (n : ℕ) (xs : List A) → length xs ≤ n → drop n xs ≡ []
  drop_all n [] h = drop_nil n
  drop_all zero (x ∷ xs) h = absurd (omega arith)
  drop_all (suc n) (x ∷ xs) h = drop_all n xs (omega arith)

  pub take_short : (n : ℕ) (xs : List A) → length xs ≤ n → take n xs ≡ xs
  take_short zero [] h = refl
  take_short zero (x ∷ xs) h = absurd (omega arith)
  take_short (suc n) [] h = refl
  take_short (suc n) (x ∷ xs) h = ap (λ t. x ∷ t) (take_short n xs (omega arith))

  pub length-drop : (n : ℕ) (xs : List A) → length (drop n xs) ≡ length xs - n
  length-drop zero xs = omega arith
  length-drop (suc n) [] = omega arith
  length-drop (suc n) (x ∷ xs) = omega (arith, length-drop n xs)

  pub length-take_le : (n : ℕ) (xs : List A) → n ≤ length xs → length (take n xs) ≡ n
  length-take_le zero xs h = refl
  length-take_le (suc n) [] h = absurd (omega arith)
  length-take_le (suc n) (x ∷ xs) h = ap suc (length-take_le n xs (omega arith))
