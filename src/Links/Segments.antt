-- ===== src/Links/Segments.antt =====
-- A run of nodes on the heap whose pointers are those of a list.
use opticon.Prelude.{◌≡◌, ◌≢◌, ◌∙◌, true, false, some, [], ◌∷◌, ◌++◌, arith}
use opticon.Links.{Ptr, null, Heap, node}
use opticon.Links.Cells.{Cells, has, head_or, last_or}

module _ {A : Type 0} where
  -- The first node's `prev` is `pr`, the last one's `next` is `nx`.
  abbrev pub Seg : Heap A → Ptr → Cells A → Ptr → Type 0
  Seg h pr [] nx = Unit
  Seg h pr ((q, v) ∷ xs) nx = (q ≢ null) × (h q ≡ some (node pr (head_or nx xs) v)) × Seg h q xs nx

  -- A heap that agrees at the addresses of the run.
  pub Seg-agree :
      (h h' : Heap A) (pr : Ptr) (xs : Cells A) (nx : Ptr)
      → ((a : Ptr) → has a xs ≡ true → h' a ≡ h a)
      → Seg h pr xs nx
      → Seg h' pr xs nx
  Seg-agree h h' pr [] nx same s = tt
  Seg-agree h h' pr ((q, v) ∷ xs) nx same s =
      (s.0, same q (ground arith) ∙ s.1, Seg-agree h h' q xs nx (λ a m. same a (ground arith)) s.2)

  pub Seg-parts :
      (h : Heap A) (pr : Ptr) (xs ys : Cells A) (nx : Ptr)
      → Seg h pr (xs ++ ys) nx
      → Seg h pr xs (head_or nx ys) × Seg h (last_or pr xs) ys nx
  Seg-parts h pr [] ys nx s = (tt, s)
  Seg-parts h pr ((q, v) ∷ []) ys nx s = ((s.0, s.1, tt), s.2)
  Seg-parts h pr ((q, v) ∷ (r, w) ∷ xs) ys nx s =
      let (before, after) = Seg-parts h q ((r, w) ∷ xs) ys nx s.2 in ((s.0, s.1, before), after)

  pub Seg-join :
      (h : Heap A) (pr : Ptr) (xs ys : Cells A) (nx : Ptr)
      → Seg h pr xs (head_or nx ys)
      → Seg h (last_or pr xs) ys nx
      → Seg h pr (xs ++ ys) nx
  Seg-join h pr [] ys nx s t = t
  Seg-join h pr ((q, v) ∷ []) ys nx s t = (s.0, s.1, t)
  Seg-join h pr ((q, v) ∷ (r, w) ∷ xs) ys nx s t =
      (s.0, s.1, Seg-join h q ((r, w) ∷ xs) ys nx s.2 t)

  -- No node stands at `NULL`.
  pub Seg-has-null :
      (h : Heap A) (pr : Ptr) (xs : Cells A) (nx : Ptr) → Seg h pr xs nx → has null xs ≡ false
  Seg-has-null h pr [] nx s = cc
  Seg-has-null h pr ((q, v) ∷ xs) nx s = ground (arith, Seg-has-null h q xs nx s.2)
