-- ===== src/Links/Walk.antt =====
-- The loops that follow `next` from the first node of a list.
use opticon.Prelude.{
  ℕ, zero, suc, ◌<◌, ◌≡◌, ◌≢◌, refl, ◌∙◌, Bool, false, none, some, [], ◌∷◌, ◌++◌, arith, ◌==◌,
  if◌then◌else◌, length,
}
use opticon.Links.{Ptr, null, Heap, node, update, first_where, free_all, set_item}
use opticon.Links.Cells.{Cells, has, Distinct, head_or, last_or, Distinct-append}
use opticon.Links.Segments.{Seg, Seg-agree, Seg-parts, Seg-join}

module _ {A : Type 0} where
  -- the address of the first item that passes, `NULL` if none does
  abbrev pub find_cell : (A → Bool) → Cells A → Ptr
  find_cell test [] = null
  find_cell test ((p, v) ∷ xs) = if test v then p else find_cell test xs

  pub first_where_lem :
      (test : A → Bool) (h : Heap A) (fuel : ℕ) (pr : Ptr) (xs : Cells A)
      → Seg h pr xs null
      → length xs < fuel
      → first_where test h fuel (head_or null xs) ≡ some (find_cell test xs)
  unfolding first_where
  first_where_lem test h zero pr xs s f = absurd (omega arith)
  first_where_lem test h (suc fuel) pr [] s f = refl
  first_where_lem test h (suc fuel) pr ((q, v) ∷ xs) s f =
      let t : (q == null) ≡ false = ground (arith, s.0) in
      rw (t, s.1) (ground (arith, first_where_lem test h fuel q xs s.2))

  pub free_all_lem :
      (h : Heap A) (fuel : ℕ) (pr : Ptr) (xs : Cells A)
      → Seg h pr xs null
      → Distinct xs
      → length xs < fuel
      → (h' : Heap A) × (free_all h fuel (head_or null xs) ≡ some h')
        × ((a : Ptr) → h' a ≡ (if has a xs then none else h a))
  unfolding free_all
  free_all_lem h zero pr xs s d f = absurd (omega arith)
  free_all_lem h (suc fuel) pr [] s d f = (h, refl, λ a. refl)
  free_all_lem h (suc fuel) pr ((q, v) ∷ xs) s d f =
      let t : (q == null) ≡ false = ground (arith, s.0) in
      let h1 = update h q none in
      let s1 = Seg-agree h h1 q xs null (λ a m. ground arith) s.2 in
      let (h', e, gone) = free_all_lem h1 fuel q xs s1 d.1 (omega arith) in
      (h', rw (t, s.1) e, λ a. gone a ∙ ground arith)

  -- A write to the item of one node changes that item only.
  pub set_item_lem :
      (h : Heap A) (pr : Ptr) (xs : Cells A) (p : Ptr) (v w : A) (ys : Cells A) (nx : Ptr)
      → Distinct (xs ++ (p, v) ∷ ys)
      → Seg h pr (xs ++ (p, v) ∷ ys) nx
      → (h' : Heap A) × (set_item h p w ≡ some h')
        × Seg h' pr (xs ++ (p, w) ∷ ys) nx
        × ((a : Ptr) → a ≢ p → h' a ≡ h a)
  unfolding set_item
  set_item_lem h pr xs p v w ys nx d s =
      let (before, (ne, at, after)) = Seg-parts h pr xs ((p, v) ∷ ys) nx s in
      let (dx, (new, dy), apart) = Distinct-append xs ((p, v) ∷ ys) d in
      let h' = update h p (some (node (last_or pr xs) (head_or nx ys) w)) in
      (
        h',
        ground arith,
        Seg-join h' pr xs ((p, w) ∷ ys) nx
            (Seg-agree h h' pr xs p (λ a m. ground (arith, apart a)) before)
            (ne, ground arith, Seg-agree h h' p ys nx (λ a m. ground arith) after),
        λ a m. ground arith,
      )
