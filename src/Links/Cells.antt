-- ===== src/Links/Cells.antt =====
-- What a list stands for: the address and the item of each node, in order.
use opticon.Prelude.{◌≡◌, refl, Bool, true, false, ◌||◌, List, [], ◌∷◌, ◌++◌, arith, ◌==◌}
use opticon.Links.{Ptr}

abbrev pub Cells : Type 0 → Type 0
Cells A = List (Ptr × A)

module _ {A : Type 0} where
  abbrev pub has : Ptr → Cells A → Bool
  has a [] = false
  has a ((p, _) ∷ xs) = (a == p) || has a xs

  -- no address twice
  abbrev pub Distinct : Cells A → Type 0
  Distinct [] = Unit
  Distinct ((p, _) ∷ xs) = (has p xs ≡ false) × Distinct xs

  -- the first address, or what follows an empty list
  abbrev pub head_or : Ptr → Cells A → Ptr
  head_or p [] = p
  head_or p ((q, _) ∷ xs) = q

  -- the last address, or what precedes an empty list
  abbrev pub last_or : Ptr → Cells A → Ptr
  last_or p [] = p
  last_or p ((q, _) ∷ xs) = last_or q xs

  pub has-append : (a : Ptr) (xs ys : Cells A) → has a (xs ++ ys) ≡ (has a xs || has a ys)
  has-append a [] ys = refl
  has-append a ((p, v) ∷ xs) ys = ground (arith, has-append a xs ys)

  pub has-last_or : (q : Ptr) (v : A) (xs : Cells A) → has (last_or q xs) ((q, v) ∷ xs) ≡ true
  has-last_or q v [] = ground arith
  has-last_or q v ((p, w) ∷ xs) = ground (arith, has-last_or p w xs)

  pub last_or-append :
      (p : Ptr) (xs ys : Cells A) → last_or p (xs ++ ys) ≡ last_or (last_or p xs) ys
  last_or-append p [] ys = refl
  last_or-append p ((q, v) ∷ xs) ys = last_or-append q xs ys

  pub head_or-append :
      (p : Ptr) (xs ys : Cells A) → head_or p (xs ++ ys) ≡ head_or (head_or p ys) xs
  head_or-append p [] ys = refl
  head_or-append p ((q, v) ∷ xs) ys = refl

  -- An address of a list of distinct ones, between two parts, is in neither.
  pub Distinct-append :
      (xs ys : Cells A)
      → Distinct (xs ++ ys)
      → Distinct xs × Distinct ys × ((a : Ptr) → has a xs ≡ true → has a ys ≡ false)
  Distinct-append [] ys d = (tt, d, λ a h. cc)
  Distinct-append ((p, v) ∷ xs) ys (new, d) =
      let (dx, dy, apart) = Distinct-append xs ys d in
      (
        (ground (arith, has-append p xs ys), dx),
        dy,
        λ a h. ground (arith, has-append p xs ys, apart a),
      )

  pub Distinct-join :
      (xs ys : Cells A)
      → Distinct xs
      → Distinct ys
      → ((a : Ptr) → has a xs ≡ true → has a ys ≡ false)
      → Distinct (xs ++ ys)
  Distinct-join [] ys dx dy apart = dy
  Distinct-join ((p, v) ∷ xs) ys (new, dx) dy apart = (
    ground (arith, has-append p xs ys, apart p),
    Distinct-join xs ys dx dy (λ a h. apart a (ground arith)),
  )
