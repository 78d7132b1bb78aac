-- ===== src/Var/Children.antt =====
-- A child more and a child less.
use opticon.Prelude.{
  ℕ, zero, suc, ◌+◌, ◌-◌, ◌<◌, ◌≡◌, ◌≢◌, refl, sym, ap, ◌∙◌, subst, true, false, Option, none, some,
  [], ◌∷◌, ◌++◌, length, length-append, arith, ◌==◌,
}
use opticon.Links.{Ptr, null, Heap, Node, node, update, ends}
use opticon.Links.Cells.{Cells, last_or, has-append, last_or-append}
use opticon.Links.Segments.{Seg-parts}
use opticon.Links.Relink.{Outside, set_next-at}
use opticon.Links.Unlink.{IsList, unlink_lem}
use opticon.Links.Append.{IsNew, snoc, HasLinked, append_cell}
use opticon.Var.{Var, VarLink, link_child, free_child}
use opticon.Var.Position.{IsArray, IsCached, address}

-- `var_free` of a child takes it out and leaves the cache empty, so that lookups by position keep
-- giving the children that are left.
pub free_child-IsArray :
    (h : Heap Var) (arr : VarLink) (xs : Cells Var) (p : Ptr) (v : Var) (ys : Cells Var)
    → IsArray h arr (xs ++ (p, v) ∷ ys)
    → (h' : Heap Var) × (arr' : VarLink) × (free_child h arr p ≡ some (h', arr'))
      × IsArray h' arr' (xs ++ ys)
      × (h' p ≡ none)
      × Outside h h' (xs ++ (p, v) ∷ ys)
unfolding free_child
free_child-IsArray h arr xs p v ys a =
    let (h', l, done, i, gone, out) = unlink_lem h arr.children xs p v ys a.list in
    (
      h',
      record arr { children = l; count = arr.count - 1; cachepos = none },
      rw done refl,
      record {
        list = i;
        counted = omega (arith, a.counted, length-append xs ((p, v) ∷ ys), length-append xs ys);
        cache = tt;
      },
      gone,
      out,
    )

address-append :
    (xs : Cells Var) (c : Ptr × Var) (i : ℕ)
    → i < length xs
    → address (xs ++ c ∷ []) i ≡ address xs i
address-append [] c i f = absurd (omega arith)
address-append (d ∷ xs) c zero f = refl
address-append (d ∷ xs) c (suc i) f = address-append xs c i (omega arith)

IsCached-append :
    (pos : Option ℕ) (q : Ptr) (xs : Cells Var) (c : Ptr × Var)
    → IsCached pos q xs
    → IsCached pos q (xs ++ c ∷ [])
IsCached-append none q xs c ok = tt
IsCached-append (some i) q xs c (low, e) =
    (omega (arith, length-append xs (c ∷ [])), e ∙ sym (address-append xs c i low))

update_twice :
    (h : Heap Var) (p q : Ptr) (b c : Option (Node Var)) (a : Ptr)
    → a ≢ q
    → a ≢ p
    → update (update h p b) q c a ≡ h a
update_twice h p q b c a k k' =
    let aq : (a == q) ≡ false = ground arith in
    let ap' : (a == p) ≡ false = ground arith in rw (aq, ap') refl

-- the writes behind a last child
link_behind :
    (h : Heap Var) (arr : VarLink) (ys : Cells Var) (q : Ptr) (w : Var) (p : Ptr) (v : Var)
    → IsList h arr.children (ys ++ (q, w) ∷ [])
    → IsNew p (ys ++ (q, w) ∷ [])
    → (h' : Heap Var) × (link_child h arr p v
        ≡ some (h', record arr { children = ends arr.children.first p; count = arr.count + 1 }))
      × IsList h' (ends arr.children.first p) ((ys ++ (q, w) ∷ []) ++ (p, v) ∷ [])
unfolding link_child
link_behind h arr ys q w p v i new =
    let (before, (ne, stored, after)) = Seg-parts h null ys ((q, w) ∷ []) null i.nodes in
    let out = new.outside in
    let pq : p ≢ q = λ k. ground (arith, has-append p ys ((q, w) ∷ [])) in
    let qp : (q == p) ≡ false = ground (arith, pq) in
    let pq' : (p == q) ≡ false = ground (arith, pq) in
    let pp : (p == p) ≡ true = ground arith in
    let qq : (q == q) ≡ true = ground arith in
    let pr = last_or null ys in
    let is_last : arr.children.last ≡ q = i.last ∙ last_or-append null ys ((q, w) ∷ []) in
    let some_last : (q == null) ≡ false = ground arith in
    let h1 = update h p (some (node q null v)) in
    let h2 = update h1 q (some (node pr p w)) in
    let forth = set_next-at h1 q pr null p w ne (rw qp stored) in
    let linked : HasLinked h h2 pr q p w v = record {
      old_last = rw qq refl;
      new_last = rw (pq', pp) refl;
      others = update_twice h p q _ _;
    } in
    (h2, rw (is_last, some_last, forth) refl, append_cell h h2 arr.children ys q w p v i new linked)

-- `var_link` puts a child behind the others, and a cache that stood at a child stands there still.
pub link_child-IsArray :
    (h : Heap Var) (arr : VarLink) (xs : Cells Var) (p : Ptr) (v : Var)
    → IsArray h arr xs
    → IsNew p xs
    → (h' : Heap Var) × (arr' : VarLink) × (link_child h arr p v ≡ some (h', arr'))
      × IsArray h' arr' (xs ++ (p, v) ∷ [])
unfolding link_child
link_child-IsArray h arr [] p v a new =
    let empty : (arr.children.last == null) ≡ true = ap (λ t. t == null) a.list.last in
    let p_ne = new.address in
    let pp : (p == p) ≡ true = ground arith in
    (
      update h p (some (node arr.children.last null v)),
      record arr { children = ends p p; count = arr.count + 1 },
      rw empty refl,
      record {
        list = record {
          first = refl;
          last = refl;
          nodes = (p_ne, rw (a.list.last, pp) refl, tt);
          once = (refl, tt);
        };
        counted = omega (arith, a.counted);
        cache = IsCached-append arr.cachepos arr.cachenode [] (p, v) a.cache;
      },
    )
link_child-IsArray h arr (c ∷ xs) p v a new =
    let (ys, q, w, e) = snoc c xs in
    let (h', done, i) =
      link_behind h arr ys q w p v (subst (IsList h arr.children) e a.list)
        (subst (IsNew p) e new) in
    (
      h',
      record arr { children = ends arr.children.first p; count = arr.count + 1 },
      done,
      record {
        list = subst (λ t. IsList h' (ends arr.children.first p) (t ++ (p, v) ∷ [])) (sym e) i;
        counted = omega (arith, a.counted, length-append (c ∷ xs) ((p, v) ∷ []));
        cache = IsCached-append arr.cachepos arr.cachenode (c ∷ xs) (p, v) a.cache;
      },
    )
