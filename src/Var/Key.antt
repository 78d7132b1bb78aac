-- ===== src/Var/Key.antt =====
-- `var_find_key` against a lookup by the key alone.
use opticon.Prelude.{
  ℕ, zero, suc, ◌<◌, ◌≡◌, ◌≢◌, refl, sym, ap, subst, ◌∙◌, Bool, Bool-cases, inl, inr, ◌⊎◌, true,
  false, ◌||◌, Option, some, List, [], ◌∷◌, length, arith, ◌==◌,
}
use opticon.Prelude.Text.{same, same-eq}
use opticon.Links.{Ptr, null, Heap, Node, node, update, set_item}
use opticon.Links.Cells.{Cells, has, head_or, last_or, Distinct}
use opticon.Links.Segments.{Seg, Seg-agree}
use opticon.Links.Relink.{Outside}
use opticon.Links.Unlink.{IsList}
use opticon.Links.Walk.{find_cell}
use opticon.Hash.{hash_token}
use opticon.Var.{var_dict, Var, hashed, find_loop, find_key}

-- A hash code that is not there, or is that of the key.
abbrev pub IsHashed : ℕ → Var → Type 0
IsHashed seed v = (v.hashcode ≡ 0) ⊎ (v.hashcode ≡ hash_token seed v.id)

abbrev pub AllHashed : ℕ → Cells Var → Type 0
AllHashed seed [] = Unit
AllHashed seed ((_, v) ∷ xs) = IsHashed seed v × AllHashed seed xs

-- The same children, but for their hash codes.
abbrev pub IsRehashed : Cells Var → Cells Var → Type 0
IsRehashed [] ys = ys ≡ []
IsRehashed (c ∷ xs) [] = ⊥
IsRehashed ((p, v) ∷ xs) ((q, w) ∷ ys) =
    (q ≡ p) × (w ≡ record v { hashcode = w.hashcode }) × IsRehashed xs ys

abbrev pub has_key : List ℕ → Var → Bool
has_key key v = same v.id key

likely_same :
    (seed : ℕ) (v : Var) (key : List ℕ)
    → IsHashed seed v
    → same v.id key ≡ true
    → ((v.hashcode == 0) || (v.hashcode == hash_token seed key)) ≡ true
likely_same seed v key (inl e) k = ground arith
likely_same seed v key (inr e) k =
    let there : v.hashcode ≡ hash_token seed key = e ∙ ap (hash_token seed) (same-eq v.id key k) in
    ground arith

hashed-IsHashed : (seed : ℕ) (v : Var) → IsHashed seed v → IsHashed seed (hashed seed v)
hashed-IsHashed seed v ok = elim (Bool-cases (v.hashcode == 0)) [
  | inl e ↦ rw e (inr refl)
  | inr e ↦ rw e ok
]

IsRehashed-refl : (xs : Cells Var) → IsRehashed xs xs
IsRehashed-refl [] = refl
IsRehashed-refl ((p, v) ∷ xs) = (refl, refl, IsRehashed-refl xs)

IsRehashed-head : (xs ys : Cells Var) → IsRehashed xs ys → head_or null ys ≡ head_or null xs
IsRehashed-head [] ys r = ap (head_or null) r
IsRehashed-head (c ∷ xs) [] r = absurd r
IsRehashed-head ((p, v) ∷ xs) ((q, w) ∷ ys) (e, _, r) = e

IsRehashed-last : (pr : Ptr) (xs ys : Cells Var) → IsRehashed xs ys → last_or pr ys ≡ last_or pr xs
IsRehashed-last pr [] ys r = ap (last_or pr) r
IsRehashed-last pr (c ∷ xs) [] r = absurd r
IsRehashed-last pr ((p, v) ∷ xs) ((q, w) ∷ ys) (e, _, r) =
    ap (λ t. last_or t ys) e ∙ IsRehashed-last p xs ys r

IsRehashed-has : (a : Ptr) (xs ys : Cells Var) → IsRehashed xs ys → has a ys ≡ has a xs
IsRehashed-has a [] ys r = ap (has a) r
IsRehashed-has a (c ∷ xs) [] r = absurd r
IsRehashed-has a ((p, v) ∷ xs) ((q, w) ∷ ys) (e, _, r) =
    ap (λ t. (a == t) || has a ys) e ∙ ap (λ t. (a == p) || t) (IsRehashed-has a xs ys r)

IsRehashed-Distinct : (xs ys : Cells Var) → IsRehashed xs ys → Distinct xs → Distinct ys
IsRehashed-Distinct [] ys r d = subst Distinct (sym r) tt
IsRehashed-Distinct (c ∷ xs) [] r d = absurd r
IsRehashed-Distinct ((p, v) ∷ xs) ((q, w) ∷ ys) (e, _, r) (new, d) =
    (ap (λ t. has t ys) e ∙ IsRehashed-has p xs ys r ∙ new, IsRehashed-Distinct xs ys r d)

-- What the loop does to a run of children.
record HasLooked (fuel : ℕ) (h : Heap Var) (seed : ℕ) (key : List ℕ) (pr : Ptr) (xs : Cells Var)
    : Type 0 where
  h' : Heap Var
  ys : Cells Var
  done : find_loop fuel h seed key (head_or null xs) ≡ some (find_cell (has_key key) xs, h')
  nodes : Seg h' pr ys null
  codes : AllHashed seed ys
  places : IsRehashed xs ys
  elsewhere : Outside h h' xs

set_item-at :
    (h : Heap Var) (p a b : Ptr) (v w : Var)
    → p ≢ null
    → h p ≡ some (node a b v)
    → set_item h p w ≡ some (update h p (some (node a b w)))
unfolding set_item
set_item-at h p a b v w ne stored = ground arith

hashed-like :
    (seed : ℕ) (v : Var) → hashed seed v ≡ record v { hashcode = (hashed seed v).hashcode }
hashed-like seed v = elim (Bool-cases (v.hashcode == 0)) [ inl e ↦ rw e refl | inr e ↦ rw e refl ]

has-apart : (p a : Ptr) (xs : Cells Var) → has p xs ≡ false → has a xs ≡ true → a ≢ p
has-apart p a xs new m k = ground (arith, subst (λ t. has t xs ≡ true) k m)

unwritten : (h : Heap Var) (p a : Ptr) (c : Option (Node Var)) → a ≢ p → update h p c a ≡ h a
unwritten h p a c k = let e : (a == p) ≡ false = ground arith in rw e refl

-- The first child of a run, which the key is not and which may have got its code, before the rest.
behind_first :
    (fuel : ℕ) (h h1 : Heap Var) (seed : ℕ) (key : List ℕ) (pr p : Ptr) (v w : Var) (xs : Cells Var)
    → p ≢ null
    → h1 p ≡ some (node pr (head_or null xs) w)
    → ((a : Ptr) → a ≢ p → h1 a ≡ h a)
    → IsHashed seed w
    → w ≡ record v { hashcode = w.hashcode }
    → has p xs ≡ false
    → has_key key v ≡ false
    → (rest : HasLooked fuel h1 seed key p xs)
    → find_loop (suc fuel) h seed key p ≡ find_loop fuel h1 seed key (head_or null xs)
    → HasLooked (suc fuel) h seed key pr ((p, v) ∷ xs)
behind_first fuel h h1 seed key pr p v w xs ne stored others ok like new differs rest step =
    record {
      h' = rest.h';
      ys = (p, w) ∷ rest.ys;
      done = step ∙ rest.done ∙ rw differs refl;
      nodes = (
        ne,
        rest.elsewhere p new
            ∙ stored
            ∙ ap (λ t. some (node pr t w)) (sym (IsRehashed-head xs rest.ys rest.places)),
        rest.nodes,
      );
      codes = (ok, rest.codes);
      places = (refl, like, rest.places);
      elsewhere = λ a m.
          let apart : a ≢ p = λ k. ground (arith, m, k) in
          rest.elsewhere a (ground (arith, m)) ∙ others a apart;
    }

find_loop_lem :
    (fuel : ℕ) (h : Heap Var) (seed : ℕ) (key : List ℕ) (pr : Ptr) (xs : Cells Var)
    → Seg h pr xs null
    → Distinct xs
    → AllHashed seed xs
    → length xs < fuel
    → HasLooked fuel h seed key pr xs
unfolding find_loop
find_loop_lem zero h seed key pr xs s d codes f = absurd (omega arith)
find_loop_lem (suc fuel) h seed key pr [] s d codes f = record {
  h' = h;
  ys = [];
  done = refl;
  nodes = tt;
  codes = tt;
  places = refl;
  elsewhere = λ a m. refl;
}
find_loop_lem (suc fuel) h seed key pr ((p, v) ∷ xs) (ne, stored, s) (new, d) (ok, codes) f =
    let t : (p == null) ≡ false = ground arith in
    elim (Bool-cases (same v.id key)) [
      | inl k ↦ record {
        h' = h;
        ys = (p, v) ∷ xs;
        done = rw (t, stored, likely_same seed v key ok k, k) refl;
        nodes = (ne, stored, s);
        codes = (ok, codes);
        places = IsRehashed-refl ((p, v) ∷ xs);
        elsewhere = λ a m. refl;
      }
      | inr k ↦ elim (Bool-cases ((v.hashcode == 0) || (v.hashcode == hash_token seed key))) [
        | inl e ↦
            let h1 = update h p (some (node pr (head_or null xs) (hashed seed v))) in
            let written = set_item-at h p pr (head_or null xs) v (hashed seed v) ne stored in
            let s1 =
              Seg-agree h h1 p xs null (λ a m. unwritten h p a _ (has-apart p a xs new m)) s in
            behind_first fuel h h1 seed key pr p v (hashed seed v) xs ne (ground arith)
              (λ a m. ground (arith, m)) (hashed-IsHashed seed v ok) (hashed-like seed v) new k
              (find_loop_lem fuel h1 seed key p xs s1 d codes (omega arith))
              (rw (t, stored, e, k, written) refl)
        | inr e ↦
            behind_first fuel h h seed key pr p v v xs ne stored (λ a m. refl) ok refl new k
              (find_loop_lem fuel h seed key p xs s d codes (omega arith)) (rw (t, stored, e) refl)
      ]
    ]

-- What a lookup by key finds, and what it leaves: the children with some more hash codes.
pub record HasKey (h : Heap Var) (self : Var) (seed fuel : ℕ) (key : List ℕ) (xs : Cells Var)
    : Type 0 where
  pub after : Heap Var
  pub children : Cells Var
  pub found : find_key fuel h seed self key ≡ some (find_cell (has_key key) xs, self, after)
  pub list : IsList after self.arr.children children
  pub codes : AllHashed seed children
  pub places : IsRehashed xs children
  pub elsewhere : Outside h after xs

-- On a dictionary each of whose children has no hash code or the code of its own key, comparing
-- the codes first makes no difference: `var_find_key` gives the first child with the key, `NULL`
-- where there is none, though two keys may share a code. It writes nothing but missing hash codes,
-- to children, and each of these is then that of its key, so lookups may follow each other.
pub find_key_lem :
    (h : Heap Var) (self : Var) (seed fuel : ℕ) (key : List ℕ) (xs : Cells Var)
    → self.type ≡ var_dict
    → IsList h self.arr.children xs
    → AllHashed seed xs
    → length xs < fuel
    → HasKey h self seed fuel key xs
unfolding find_key
find_key_lem h self seed fuel key xs kind l codes f =
    let looked = find_loop_lem fuel h seed key null xs l.nodes l.once codes f in
    record {
      after = looked.h';
      children = looked.ys;
      found = rw (kind, ap (find_loop fuel h seed key) l.first ∙ looked.done) refl;
      list = record {
        first = l.first ∙ sym (IsRehashed-head xs looked.ys looked.places);
        last = l.last ∙ sym (IsRehashed-last null xs looked.ys looked.places);
        nodes = looked.nodes;
        once = IsRehashed-Distinct xs looked.ys looked.places l.once;
      };
      codes = looked.codes;
      places = looked.places;
      elsewhere = looked.elsewhere;
    }
