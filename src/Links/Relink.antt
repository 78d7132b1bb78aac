-- ===== src/Links/Relink.antt =====
-- The two writes that join the parts before and after a node: to the `prev` of what follows, and
-- to the `next` of what precedes. At an end of the list there is nothing to write.
use opticon.Prelude.{
  ◌≡◌, ◌≢◌, refl, ◌∙◌, false, Option, none, some, [], ◌∷◌, arith, ◌==◌, if◌then◌else◌,
}
use opticon.Links.{Ptr, null, Heap, node, update, set_next, set_prev}
use opticon.Links.Cells.{Cells, has, Distinct, head_or, last_or}
use opticon.Links.Segments.{Seg, Seg-agree}

module _ {A : Type 0} where
  abbrev pub put_prev : Heap A → Ptr → Ptr → Option (Heap A)
  put_prev h p q = if p == null then some h else set_prev h p q

  abbrev pub put_next : Heap A → Ptr → Ptr → Option (Heap A)
  put_next h p q = if p == null then some h else set_next h p q

  pub set_next-at :
      (h : Heap A) (p a b q : Ptr) (v : A)
      → p ≢ null
      → h p ≡ some (node a b v)
      → set_next h p q ≡ some (update h p (some (node a q v)))
  unfolding set_next
  set_next-at h p a b q v ne at = ground arith

  pub set_next-none : (h : Heap A) (p q : Ptr) → h p ≡ none → set_next h p q ≡ none
  unfolding set_next
  set_next-none h p q at = ground arith

  pub set_prev-at :
      (h : Heap A) (p a b q : Ptr) (v : A)
      → p ≢ null
      → h p ≡ some (node a b v)
      → set_prev h p q ≡ some (update h p (some (node q b v)))
  unfolding set_prev
  set_prev-at h p a b q v ne at = ground arith

  -- a heap that differs at most at the addresses of a list
  abbrev pub Outside : Heap A → Heap A → Cells A → Type 0
  Outside h h' xs = (a : Ptr) → has a xs ≡ false → h' a ≡ h a

  pub put_prev-head :
      (h : Heap A) (pr pr' : Ptr) (xs : Cells A) (nx : Ptr)
      → Distinct xs
      → Seg h pr xs nx
      → nx ≡ null
      → (h' : Heap A) × (put_prev h (head_or nx xs) pr' ≡ some h')
        × Seg h' pr' xs nx
        × Outside h h' xs
  unfolding set_prev
  put_prev-head h pr pr' [] nx d s e = (h, ground arith, tt, λ a m. refl)
  put_prev-head h pr pr' ((q, v) ∷ xs) nx d s e =
      let h' = update h q (some (node pr' (head_or nx xs) v)) in
      (
        h',
        ground arith,
        (s.0, ground arith, Seg-agree h h' q xs nx (λ a m. ground arith) s.2),
        λ a m. ground arith,
      )

  put_next-last_node :
      (h : Heap A) (pr q : Ptr) (v : A) (xs : Cells A) (nx nx' : Ptr)
      → Distinct ((q, v) ∷ xs)
      → Seg h pr ((q, v) ∷ xs) nx
      → (h' : Heap A) × (put_next h (last_or q xs) nx' ≡ some h')
        × Seg h' pr ((q, v) ∷ xs) nx'
        × Outside h h' ((q, v) ∷ xs)
  unfolding set_next
  put_next-last_node h pr q v [] nx nx' d s =
      let h' = update h q (some (node pr nx' v)) in
      (h', ground arith, (s.0, ground arith, tt), λ a m. ground arith)
  put_next-last_node h pr q v ((r, w) ∷ xs) nx nx' d s =
      let (h', e, s', out) = put_next-last_node h q r w xs nx nx' d.1 s.2 in
      (h', e, (s.0, out q d.0 ∙ s.1, s'), λ a m. out a (ground arith))

  pub put_next-last :
      (h : Heap A) (pr : Ptr) (xs : Cells A) (nx nx' : Ptr)
      → Distinct xs
      → Seg h pr xs nx
      → pr ≡ null
      → (h' : Heap A) × (put_next h (last_or pr xs) nx' ≡ some h')
        × Seg h' pr xs nx'
        × Outside h h' xs
  put_next-last h pr [] nx nx' d s e = (h, ground arith, tt, λ a m. refl)
  put_next-last h pr ((q, v) ∷ xs) nx nx' d s e = put_next-last_node h pr q v xs nx nx' d s
