-- ===== src/Links/Unlink.antt =====
-- A whole list, and the unlinking of one of its nodes.
use opticon.Prelude.{
  ◌≡◌, ◌≢◌, refl, sym, ap, ◌∙◌, Bool-cases, inl, inr, true, false, none, some, [], ◌∷◌, ◌++◌, arith,
  ◌==◌, if◌then◌else◌,
}
use opticon.Links.{Ptr, null, Ends, ends, Heap, node, update, unlink}
use opticon.Links.Cells.{
  Cells, has, Distinct, head_or, last_or, has-append, Distinct-append, Distinct-join,
  last_or-append,
}
use opticon.Links.Segments.{Seg, Seg-agree, Seg-parts, Seg-join, Seg-has-null}
use opticon.Links.Relink.{put_prev, put_next, Outside, put_prev-head, put_next-last}

module _ {A : Type 0} where
  pub record IsList (h : Heap A) (l : Ends) (xs : Cells A) : Type 0 where
    pub first : l.first ≡ head_or null xs
    pub last : l.last ≡ last_or null xs
    pub nodes : Seg h null xs null
    pub once : Distinct xs

  pub IsList-agree :
      (h h' : Heap A) (l : Ends) (xs : Cells A)
      → ((a : Ptr) → has a xs ≡ true → h' a ≡ h a)
      → IsList h l xs
      → IsList h' l xs
  IsList-agree h h' l xs agree i = record {
    first = i.first;
    last = i.last;
    nodes = Seg-agree h h' null xs null agree i.nodes;
    once = i.once;
  }

  -- The four branches write what the two conditional writes do.
  pub unlink-eq :
      (h g g' : Heap A) (l : Ends) (p : Ptr) (pr nx : Ptr) (v : A)
      → p ≢ null
      → h p ≡ some (node pr nx v)
      → put_prev h nx pr ≡ some g
      → put_next g pr nx ≡ some g'
      → unlink h l p
        ≡ some (
          update g' p none,
          ends (if pr == null then nx else l.first) (if nx == null then pr else l.last),
        )
  unfolding unlink
  unlink-eq h g g' l p pr nx v ne at e e' = elim (Bool-cases (pr == null)) [
    | inl a ↦ elim (Bool-cases (nx == null)) [ inl b ↦ ground arith | inr b ↦ ground arith ]
    | inr a ↦ elim (Bool-cases (nx == null)) [ inl b ↦ ground arith | inr b ↦ ground arith ]
  ]

  last_or-ne_null :
      (q : Ptr) (w : A) (xs : Cells A)
      → has null ((q, w) ∷ xs) ≡ false
      → (last_or q xs == null) ≡ false
  last_or-ne_null q w [] e = ground arith
  last_or-ne_null q w ((r, u) ∷ xs) e = last_or-ne_null r u xs (ground arith)

  first-unlink :
      (h : Heap A) (xs ys : Cells A) (p : Ptr) (v : A) (nx : Ptr)
      → Seg h null xs nx
      → (if last_or null xs == null then head_or null ys else head_or null (xs ++ (p, v) ∷ ys))
        ≡ head_or null (xs ++ ys)
  first-unlink h [] ys p v nx s = ground arith
  first-unlink h ((q, w) ∷ xs) ys p v nx s =
      rw (last_or-ne_null q w xs (Seg-has-null h null ((q, w) ∷ xs) nx s))

  last-unlink :
      (h : Heap A) (xs ys : Cells A) (p : Ptr) (v : A)
      → Seg h p ys null
      → (if head_or null ys == null then last_or null xs else last_or null (xs ++ (p, v) ∷ ys))
        ≡ last_or null (xs ++ ys)
  last-unlink h xs [] p v s = ground (arith, last_or-append null xs [])
  last-unlink h xs ((r, w) ∷ ys) p v s =
      let t : (r == null) ≡ false = ground (arith, s.0) in
      rw t
        (last_or-append null xs ((p, v) ∷ (r, w) ∷ ys) ∙ sym (last_or-append null xs ((r, w) ∷ ys)))

  -- A node anywhere in a list is taken out and freed; the others keep their order, and nothing
  -- outside the list is written.
  pub unlink_lem :
      (h : Heap A) (l : Ends) (xs : Cells A) (p : Ptr) (v : A) (ys : Cells A)
      → IsList h l (xs ++ (p, v) ∷ ys)
      → (h' : Heap A) × (l' : Ends) × (unlink h l p ≡ some (h', l'))
        × IsList h' l' (xs ++ ys)
        × (h' p ≡ none)
        × Outside h h' (xs ++ (p, v) ∷ ys)
  unlink_lem h l xs p v ys i =
      let pr = last_or null xs in
      let nx = head_or null ys in
      let (before, (ne, at, after)) = Seg-parts h null xs ((p, v) ∷ ys) null i.nodes in
      let (dx, (new, dy), apart) = Distinct-append xs ((p, v) ∷ ys) i.once in
      let (g, e, after_g, out) = put_prev-head h p pr ys null dy after refl in
      let before_g = Seg-agree h g null xs p (λ a m. out a (ground (arith, apart a))) before in
      let (g', e', before_g', out') = put_next-last g null xs p nx dx before_g refl in
      let after_g' =
        Seg-agree g g' pr ys null (λ a m. out' a (ground (arith, apart a, Bool-cases (has a xs))))
          after_g in
      let all = Seg-join g' null xs ys null before_g' after_g' in
      let h' = update g' p none in
      (
        h',
        ends (if pr == null then nx else l.first) (if nx == null then pr else l.last),
        unlink-eq h g g' l p pr nx v ne at e e',
        record {
          first =
              ap (λ f. if pr == null then nx else f) i.first ∙ first-unlink h xs ys p v p before;
          last = ap (λ f. if nx == null then pr else f) i.last ∙ last-unlink h xs ys p v after;
          nodes =
              Seg-agree g' h' null (xs ++ ys) null
                (λ a m. ground (arith, has-append a xs ys, apart a)) all;
          once = Distinct-join xs ys dx dy (λ a m. ground (arith, apart a));
        },
        ground arith,
        λ a m. ground (arith, has-append a xs ((p, v) ∷ ys), out a, out' a),
      )
