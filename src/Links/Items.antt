-- ===== src/Links/Items.antt =====
-- The first item that passes a test, and a write to the item of a node.
use opticon.Prelude.{
  ◌≡◌, ◌≢◌, refl, sym, ap, ◌∙◌, Bool, true, false, Bool-cases, inl, inr, ◌⊎◌, some, [], ◌∷◌, ◌++◌,
  arith, ◌==◌, if◌then◌else◌,
}
use opticon.Links.{Ptr, null, Ends, Heap, node, load, set_item}
use opticon.Links.Cells.{
  Cells, head_or, last_or, Distinct-append, Distinct-join, head_or-append, last_or-append,
}
use opticon.Links.Segments.{Seg-parts}
use opticon.Links.Unlink.{IsList}
use opticon.Links.Walk.{find_cell, set_item_lem}

module _ {A : Type 0} where
  -- replaces the first cell whose item passes, or adds to the end
  abbrev pub on_first : (A → Bool) → (Ptr → A → Cells A) → Cells A → Cells A → Cells A
  on_first test found missing [] = missing
  on_first test found missing ((p, v) ∷ xs) =
      if test v then found p v ++ xs else (p, v) ∷ on_first test found missing xs

  pub record Found (test : A → Bool) (xs : Cells A) : Type 0 where
    pub before : Cells A
    pub address : Ptr
    pub item : A
    pub after : Cells A
    pub split : xs ≡ before ++ (address, item) ∷ after
    pub cell : find_cell test xs ≡ address
    pub passes : test item ≡ true
    pub replaced :
        (found : Ptr → A → Cells A) (missing : Cells A)
        → on_first test found missing xs ≡ before ++ (found address item ++ after)

  pub record Missing (test : A → Bool) (xs : Cells A) : Type 0 where
    pub cell : find_cell test xs ≡ null
    pub added :
        (found : Ptr → A → Cells A) (missing : Cells A)
        → on_first test found missing xs ≡ xs ++ missing

  pub locate : (test : A → Bool) (xs : Cells A) → Found test xs ⊎ Missing test xs
  locate test [] = inr (record { cell = refl; added = λ f m. refl })
  locate test ((p, v) ∷ xs) = elim (Bool-cases (test v)) [
    | inl e ↦ inl (record {
      before = [];
      address = p;
      item = v;
      after = xs;
      split = refl;
      cell = rw e;
      passes = e;
      replaced = λ f m. rw e;
    })
    | inr e ↦ elim (locate test xs) [
      | inl r ↦ inl (record {
        before = (p, v) ∷ r.before;
        address = r.address;
        item = r.item;
        after = r.after;
        split = ap (λ t. (p, v) ∷ t) r.split;
        cell = rw e r.cell;
        passes = r.passes;
        replaced = λ f m. rw e (ap (λ t. (p, v) ∷ t) (r.replaced f m));
      })
      | inr r ↦
          inr (record {
            cell = rw e r.cell;
            added = λ f m. rw e (ap (λ t. (p, v) ∷ t) (r.added f m));
          })
    ]
  ]

  pub load-at :
      (h : Heap A) (l : Ends) (xs : Cells A) (p : Ptr) (v : A) (ys : Cells A)
      → IsList h l (xs ++ (p, v) ∷ ys)
      → (load h p ≡ some (node (last_or null xs) (head_or null ys) v)) × (p ≢ null)
  load-at h l xs p v ys i =
      let (_, (ne, at, _)) = Seg-parts h null xs ((p, v) ∷ ys) null i.nodes in
      let some_p : (p == null) ≡ false = ground arith in (rw some_p at, ne)

  pub set_item-IsList :
      (h : Heap A) (l : Ends) (xs : Cells A) (p : Ptr) (v w : A) (ys : Cells A)
      → IsList h l (xs ++ (p, v) ∷ ys)
      → (h' : Heap A) × (set_item h p w ≡ some h')
        × IsList h' l (xs ++ (p, w) ∷ ys)
        × ((a : Ptr) → a ≢ p → h' a ≡ h a)
  set_item-IsList h l xs p v w ys i =
      let (h', e, s, same) = set_item_lem h null xs p v w ys null i.once i.nodes in
      let (dx, dy, apart) = Distinct-append xs ((p, v) ∷ ys) i.once in
      (
        h',
        e,
        record {
          first =
              i.first
              ∙ head_or-append null xs ((p, v) ∷ ys)
              ∙ sym (head_or-append null xs ((p, w) ∷ ys));
          last =
              i.last
              ∙ last_or-append null xs ((p, v) ∷ ys)
              ∙ sym (last_or-append null xs ((p, w) ∷ ys));
          nodes = s;
          once = Distinct-join xs ((p, w) ∷ ys) dx dy apart;
        },
        same,
      )
