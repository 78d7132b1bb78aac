-- ===== src/Var/Position.antt =====
-- `var_find_index` against the list of the children.
use opticon.Prelude.{
  ℕ, zero, suc, ◌+◌, ◌<◌, ◌≤◌, ◌≡◌, ◌≢◌, refl, sym, ap, ◌∙◌, Bool-cases, inl, inr, ◌⊎◌, true, false,
  Option, none, some, [], ◌∷◌, length, arith, ◌==◌, leb, dec_lt,
}
use opticon.Links.{Ptr, null, Heap, Node, node, load}
use opticon.Links.Cells.{Cells, head_or}
use opticon.Links.Segments.{Seg}
use opticon.Links.Unlink.{IsList}
use opticon.Var.{
  Var, VarLink, Index, at, minus, is_array_or_dict, is_cached, near_cache, walk, search, find_index,
}

-- the address of a child, `NULL` behind the last one
abbrev pub address : Cells Var → ℕ → Ptr
address [] i = null
address ((p, _) ∷ xs) zero = p
address ((p, _) ∷ xs) (suc i) = address xs i

abbrev pub child : Cells Var → Index → Ptr
child xs (at i) = address xs i
child xs (minus k) = null

-- the address before a child
abbrev before : Ptr → Cells Var → ℕ → Ptr
before pr xs zero = pr
before pr [] (suc i) = null
before pr ((p, _) ∷ xs) (suc i) = before p xs i

-- Where the cache stands at a position, it has the child there.
abbrev pub IsCached : Option ℕ → Ptr → Cells Var → Type 0
IsCached none p xs = Unit
IsCached (some c) p xs = (c < length xs) × (p ≡ address xs c)

pub record IsArray (h : Heap Var) (arr : VarLink) (xs : Cells Var) : Type 0 where
  pub list : IsList h arr.children xs
  pub counted : arr.count ≡ length xs
  pub cache : IsCached arr.cachepos arr.cachenode xs

address-behind : (xs : Cells Var) (i : ℕ) → length xs ≤ i → address xs i ≡ null
address-behind [] i f = refl
address-behind (c ∷ xs) zero f = absurd (omega arith)
address-behind (c ∷ xs) (suc i) f = address-behind xs i (omega arith)

before-suc :
    (pr : Ptr) (xs : Cells Var) (i : ℕ) → i < length xs → before pr xs (suc i) ≡ address xs i
before-suc pr [] i f = absurd (omega arith)
before-suc pr ((p, v) ∷ xs) zero f = refl
before-suc pr ((p, v) ∷ xs) (suc i) f = before-suc p xs i (omega arith)

address-head : (xs : Cells Var) → head_or null xs ≡ address xs 0
address-head [] = refl
address-head (c ∷ xs) = refl

-- A child and its neighbours.
record IsAt (h : Heap Var) (pr : Ptr) (xs : Cells Var) (i : ℕ) : Type 0 where
  found : Node Var
  loaded : load h (address xs i) ≡ some found
  prev : found.prev ≡ before pr xs i
  next : found.next ≡ address xs (suc i)
  place : address xs i ≢ null

child-IsAt :
    (h : Heap Var) (pr : Ptr) (xs : Cells Var) (i : ℕ)
    → Seg h pr xs null
    → i < length xs
    → IsAt h pr xs i
child-IsAt h pr [] i s f = absurd (omega arith)
child-IsAt h pr ((p, v) ∷ xs) zero (ne, stored, s) f =
    let t : (p == null) ≡ false = ground arith in
    record {
      found = node pr (head_or null xs) v;
      loaded = rw (t, stored) refl;
      prev = refl;
      next = address-head xs;
      place = ne;
    }
child-IsAt h pr ((p, v) ∷ xs) (suc i) (ne, stored, s) f =
    let i' = child-IsAt h p xs i s (omega arith) in
    record {
      found = i'.found;
      loaded = i'.loaded;
      prev = i'.prev;
      next = i'.next;
      place = i'.place;
    }

walk_lem :
    (h : Heap Var) (pr : Ptr) (xs : Cells Var) (i : ℕ)
    → Seg h pr xs null
    → walk h i (head_or null xs) ≡ some (address xs i)
unfolding walk
walk_lem h pr [] zero s = refl
walk_lem h pr [] (suc i) s = refl
walk_lem h pr ((p, v) ∷ xs) zero s = refl
walk_lem h pr ((p, v) ∷ xs) (suc i) (ne, stored, s) =
    let t : (p == null) ≡ false = ground arith in rw (t, stored) (walk_lem h p xs i s)

cached_address :
    (pos : Option ℕ) (p : Ptr) (xs : Cells Var) (i : ℕ)
    → IsCached pos p xs
    → (elim pos [ none ↦ false | some c ↦ c == i ]) ≡ true
    → (i < length xs) × (p ≡ address xs i)
cached_address none p xs i ok e = ground arith
cached_address (some c) p xs i (low, e') e =
    let same : c ≡ i = ground arith in (omega arith, e' ∙ ap (address xs) same)

-- Whether something is found next to the cache or not, it is the child at the position.
near_previous :
    (h : Heap Var) (arr : VarLink) (xs : Cells Var) (i : ℕ)
    → IsArray h arr xs
    → i + 1 < length xs
    → is_cached arr (i + 1) ≡ true
    → near_cache h arr (at i) i ≡ some (address xs i)
unfolding near_cache
near_previous h arr xs i a f e =
    let (low, c) = cached_address arr.cachepos arr.cachenode xs (i + 1) a.cache e in
    let n = child-IsAt h null xs (i + 1) a.list.nodes low in
    let one : i + 1 ≡ suc i = omega arith in
    let back : n.found.prev ≡ address xs i =
      n.prev ∙ ap (before null xs) one ∙ before-suc null xs i (omega arith) in
    rw (e, ap (load h) c ∙ n.loaded) (ap some back)

near_next :
    (h : Heap Var) (arr : VarLink) (xs : Cells Var) (i : ℕ)
    → IsArray h arr xs
    → i < length xs
    → is_cached arr (i + 1) ≡ false
    → (near_cache h arr (at i) i ≡ some (address xs i)) ⊎ (near_cache h arr (at i) i ≡ some null)
unfolding near_cache
near_next h arr xs zero a f e = inr (rw e refl)
near_next h arr xs (suc i) a f e = elim (Bool-cases (is_cached arr i)) [
  | inl t ↦
      let (low, c) = cached_address arr.cachepos arr.cachenode xs i a.cache t in
      let n = child-IsAt h null xs i a.list.nodes low in
      inl (rw (e, t, ap (load h) c ∙ n.loaded) (ap some n.next))
  | inr t ↦ inr (rw (e, t) refl)
]

search_near :
    (h : Heap Var) (arr : VarLink) (xs : Cells Var) (i : ℕ)
    → IsArray h arr xs
    → i < length xs
    → (near_cache h arr (at i) i ≡ some (address xs i)) ⊎ (near_cache h arr (at i) i ≡ some null)
    → search h arr (at i) i ≡ some (address xs i)
unfolding search
search_near h arr xs i a f (inl e) =
    let n = child-IsAt h null xs i a.list.nodes f in
    let t : (address xs i == null) ≡ false = ground (arith, n.place) in rw (e, t) refl
search_near h arr xs i a f (inr e) =
    rw e (ap (walk h i) a.list.first ∙ walk_lem h null xs i a.list.nodes)

search_lem :
    (h : Heap Var) (arr : VarLink) (xs : Cells Var) (i : ℕ)
    → IsArray h arr xs
    → i < length xs
    → search h arr (at i) i ≡ some (address xs i)
search_lem h arr xs i a f = search_near h arr xs i a f (elim (Bool-cases (is_cached arr (i + 1))) [
  | inl e ↦
      let (low, c) = cached_address arr.cachepos arr.cachenode xs (i + 1) a.cache e in
      inl (near_previous h arr xs i a low e)
  | inr e ↦ near_next h arr xs i a f e
])

-- The node with its cache at a child.
pub record HasFound (h : Heap Var) (self : Var) (index : Index) (xs : Cells Var) : Type 0 where
  pub after : Var
  pub found : find_index h self index ≡ some (child xs index, after)
  pub array : IsArray h after.arr xs
  pub same_type : after.type ≡ self.type

found_at :
    (h : Heap Var) (self : Var) (i : ℕ) (xs : Cells Var)
    → is_array_or_dict self.type ≡ true
    → IsArray h self.arr xs
    → i < length xs
    → HasFound h self (at i) xs
unfolding find_index
found_at h self i xs kind a f =
    let low : leb self.arr.count i ≡ false = ground (arith, a.counted) in
    elim (Bool-cases (is_cached self.arr i)) [
      | inl e ↦
          let (l, c) = cached_address self.arr.cachepos self.arr.cachenode xs i a.cache e in
          record {
            after = self;
            found = rw (kind, low, e) (ap (λ t. some (t, self)) c);
            array = a;
            same_type = refl;
          }
      | inr e ↦
          let n = child-IsAt h null xs i a.list.nodes f in
          let t : (address xs i == null) ≡ false = ground (arith, n.place) in
          record {
            after = record self {
              arr = record self.arr { cachepos = some i; cachenode = address xs i };
            };
            found = rw (kind, low, e, search_lem h self.arr xs i a f, t) refl;
            array = record { list = a.list; counted = a.counted; cache = (f, refl) };
            same_type = refl;
          }
    ]

-- Whatever position was looked up before, `var_find_index` on an array or dictionary gives the
-- child that stands at a position, `NULL` behind the last one and for every negative position, and
-- it leaves a cache that stands at a child again; so lookups may follow each other in any order.
pub find_index_lem :
    (h : Heap Var) (self : Var) (index : Index) (xs : Cells Var)
    → is_array_or_dict self.type ≡ true
    → IsArray h self.arr xs
    → HasFound h self index xs
unfolding find_index
find_index_lem h self (minus k) xs kind a =
    let high : leb self.arr.count (self.arr.count + k) ≡ true = ground arith in
    record { after = self; found = rw (kind, high) refl; array = a; same_type = refl }
find_index_lem h self (at i) xs kind a = elim (dec_lt i (length xs)) [
  | yes f ↦ found_at h self i xs kind a f
  | no f ↦
      let high : leb self.arr.count i ≡ true = ground (arith, a.counted) in
      record {
        after = self;
        found =
            rw (kind, high) (ap (λ t. some (t, self)) (sym (address-behind xs i (omega arith))));
        array = a;
        same_type = refl;
      }
]
