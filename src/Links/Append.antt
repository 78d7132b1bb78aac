-- ===== src/Links/Append.antt =====
-- A new node behind the others, as host.c, watchlist.c and adjust.c append it.
use opticon.Prelude.{
  ◌≡◌, ◌≢◌, refl, sym, ap, ◌∙◌, subst, false, some, [], ◌∷◌, ◌++◌, append_assoc, arith,
}
use opticon.Links.{Ptr, null, ends, Ends, node, Heap}
use opticon.Links.Cells.{
  Cells, has, Distinct, head_or, last_or, has-append, Distinct-append, last_or-append,
  head_or-append,
}
use opticon.Links.Segments.{Seg, Seg-agree, Seg-parts, Seg-join}
use opticon.Links.Relink.{Outside}
use opticon.Links.Unlink.{IsList}

module _ {A : Type 0} where
  -- An address for a new node.
  pub record IsNew (p : Ptr) (xs : Cells A) : Type 0 where
    pub address : p ≢ null
    pub outside : has p xs ≡ false

  pub Distinct-snoc :
      (xs : Cells A) (p : Ptr) (v : A)
      → Distinct xs
      → has p xs ≡ false
      → Distinct (xs ++ (p, v) ∷ [])
  Distinct-snoc [] p v d new = (refl, tt)
  Distinct-snoc ((q, w) ∷ xs) p v (d, ds) new =
      (ground (arith, has-append q xs ((p, v) ∷ [])), Distinct-snoc xs p v ds (ground arith))

  -- with the last node named
  pub snoc :
      (c : Ptr × A) (xs : Cells A)
      → (ys : Cells A) × (q : Ptr) × (w : A) × (c ∷ xs ≡ ys ++ (q, w) ∷ [])
  snoc (p, v) [] = ([], p, v, refl)
  snoc (p, v) (c ∷ xs) =
      let (ys, q, w, e) = snoc c xs in ((p, v) ∷ ys, q, w, ap (λ t. (p, v) ∷ t) e)

  -- A heap with the new node, the old last one that points to it, and all else as it was.
  pub record HasLinked (h h' : Heap A) (pr q p : Ptr) (w v : A) : Type 0 where
    pub old_last : h' q ≡ some (node pr p w)
    pub new_last : h' p ≡ some (node q null v)
    pub others : (a : Ptr) → a ≢ q → a ≢ p → h' a ≡ h a

  pub append_cell :
      (h h' : Heap A) (l : Ends) (ys : Cells A) (q : Ptr) (w : A) (p : Ptr) (v : A)
      → IsList h l (ys ++ (q, w) ∷ [])
      → IsNew p (ys ++ (q, w) ∷ [])
      → HasLinked h h' (last_or null ys) q p w v
      → IsList h' (ends l.first p) ((ys ++ (q, w) ∷ []) ++ (p, v) ∷ [])
  append_cell h h' l ys q w p v i new linked =
      let (before, (ne, at, after)) = Seg-parts h null ys ((q, w) ∷ []) null i.nodes in
      let (dx, dq, apart) = Distinct-append ys ((q, w) ∷ []) i.once in
      let out = new.outside in
      let others = linked.others in
      let p_new : has p ys ≡ false = ground (arith, has-append p ys ((q, w) ∷ [])) in
      let whole = append_assoc ys ((q, w) ∷ []) ((p, v) ∷ []) in
      let seg : Seg h' null (ys ++ (q, w) ∷ (p, v) ∷ []) null =
        Seg-join h' null ys ((q, w) ∷ (p, v) ∷ []) null
          (Seg-agree h h' null ys q
            (λ a m. others a (λ k. ground (arith, apart a)) (λ k. ground arith)) before)
          (ne, linked.old_last, (new.address, linked.new_last, tt)) in
      record {
        first =
            i.first
            ∙ head_or-append null ys ((q, w) ∷ [])
            ∙ sym (head_or-append null ys ((q, w) ∷ (p, v) ∷ []))
            ∙ ap (head_or null) (sym whole);
        last = sym (last_or-append null (ys ++ (q, w) ∷ []) ((p, v) ∷ []));
        nodes = subst (λ t. Seg h' null t null) (sym whole) seg;
        once = Distinct-snoc (ys ++ (q, w) ∷ []) p v i.once out;
      }

  -- What stood at the address of a new node and at the old last node is all that changed.
  pub Outside-append :
      (h h' : Heap A) (ys : Cells A) (pr q p : Ptr) (w v : A)
      → HasLinked h h' pr q p w v
      → Outside h h' ((ys ++ (q, w) ∷ []) ++ (p, v) ∷ [])
  Outside-append h h' ys pr q p w v linked a m =
      let others = linked.others in
      let out = has-append a (ys ++ (q, w) ∷ []) ((p, v) ∷ []) in
      let out' = has-append a ys ((q, w) ∷ []) in others a (λ k. ground arith) (λ k. ground arith)
