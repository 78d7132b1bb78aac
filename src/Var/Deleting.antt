-- ===== src/Var/Deleting.antt =====
-- `var_delete_key` and the cache of the dictionary.
use opticon.Prelude.{
  ℕ, ◌-◌, ◌<◌, ◌≡◌, Bool, Bool-cases, refl, ap, ◌∙◌, subst, true, false, none, some, List, [], ◌∷◌,
  ◌++◌, length, length-append, arith, ◌==◌, if◌then◌else◌, leb,
}
use opticon.Links.{Ptr, Ends, null, Heap, update, ends}
use opticon.Links.Cells.{Cells, has, head_or, last_or, Distinct-append}
use opticon.Links.Segments.{Seg-agree, Seg-parts}
use opticon.Links.Relink.{put_next-last, put_prev-head}
use opticon.Links.Unlink.{IsList}
use opticon.Links.Walk.{find_cell}
use opticon.Var.{
  is_dict, is_array_or_dict, is_cached, Var, VarLink, var_dict, at, find_key, take_out, delete_key,
  find_index,
}
use opticon.Var.Position.{IsArray, IsCached, address}
use opticon.Var.Key.{AllHashed, IsRehashed, has_key, find_key_lem}

-- The writes to the neighbours succeed, and the node is freed.
take_out_lem :
    (h : Heap Var) (arr : VarLink) (xs : Cells Var) (p : Ptr) (v : Var) (ys : Cells Var)
    → IsList h arr.children (xs ++ (p, v) ∷ ys)
    → (h' : Heap Var) × (l : Ends) × (take_out h arr p
        ≡ some (h', record arr { children = l; count = arr.count - 1 }))
      × (h' p ≡ none)
unfolding take_out
take_out_lem h arr xs p v ys i =
    let pr = last_or null xs in
    let nx = head_or null ys in
    let (before, (ne, stored, after)) = Seg-parts h null xs ((p, v) ∷ ys) null i.nodes in
    let (dx, (new, dy), apart) = Distinct-append xs ((p, v) ∷ ys) i.once in
    let (g, e, before_g, out) = put_next-last h null xs p nx dx before refl in
    let after_g =
      Seg-agree h g p ys null (λ a m. out a (ground (arith, apart a, Bool-cases (has a xs))))
        after in
    let (g', e', after_g', out') = put_prev-head g p pr ys null dy after_g refl in
    let t : (p == null) ≡ false = ground arith in
    let l =
      ends (if pr == null then nx else arr.children.first)
        (if nx == null then pr else arr.children.last) in
    (update g' p none, l, rw (t, stored, e, e') refl, ground arith)

-- A list with other hash codes is cut where the first one is cut.
record IsSplit (xs : Cells Var) (p : Ptr) (ys zs : Cells Var) : Type 0 where
  before : Cells Var
  item : Var
  after : Cells Var
  whole : zs ≡ before ++ (p, item) ∷ after

IsRehashed-IsSplit :
    (xs : Cells Var) (p : Ptr) (v : Var) (ys zs : Cells Var)
    → IsRehashed (xs ++ (p, v) ∷ ys) zs
    → IsSplit xs p ys zs
IsRehashed-IsSplit [] p v ys [] r = absurd r
IsRehashed-IsSplit [] p v ys ((q, w) ∷ zs) (e, like, r) = record {
  before = [];
  item = w;
  after = zs;
  whole = ap (λ t. (t, w) ∷ zs) e;
}
IsRehashed-IsSplit (c ∷ xs) p v ys [] r = absurd r
IsRehashed-IsSplit ((o, u) ∷ xs) p v ys ((q, w) ∷ zs) (e, like, r) =
    let s = IsRehashed-IsSplit xs p v ys zs r in
    record {
      before = (q, w) ∷ s.before;
      item = s.item;
      after = s.after;
      whole = ap (λ t. (q, w) ∷ t) s.whole;
    }

address-length :
    (xs : Cells Var) (p : Ptr) (v : Var) (ys : Cells Var)
    → address (xs ++ (p, v) ∷ ys) (length xs) ≡ p
address-length [] p v ys = refl
address-length (c ∷ xs) p v ys = address-length xs p v ys

-- a lookup where the cache stands
find_index-cached :
    (h : Heap Var) (self : Var) (i : ℕ)
    → is_array_or_dict self.type ≡ true
    → i < self.arr.count
    → is_cached self.arr i ≡ true
    → find_index h self (at i) ≡ some (self.arr.cachenode, self)
unfolding find_index
find_index-cached h self i kind low here =
    let low' : leb self.arr.count i ≡ false = ground arith in rw (kind, low', here) refl

delete_key-done :
    (h : Heap Var) (self : Var) (seed fuel : ℕ) (key : List ℕ) (p : Ptr) (g h' : Heap Var)
    (arr : VarLink)
    → is_dict self.type ≡ true
    → (p == null) ≡ false
    → find_key fuel h seed self key ≡ some (p, self, g)
    → take_out g self.arr p ≡ some (h', arr)
    → delete_key fuel h seed self key ≡ some (record self { arr = arr }, h')
unfolding delete_key
delete_key-done h self seed fuel key p g h' arr kind t found done = rw (kind, found, t, done) refl

-- The cache outlives the child: after a dictionary's key is deleted whose child is not the last
-- and was the last one looked up by its position, the node is freed, and the next lookup of that
-- position gives the freed node.
pub delete_key-dangles :
    (h : Heap Var) (self : Var) (seed fuel : ℕ) (key : List ℕ) (xs : Cells Var) (p : Ptr) (v : Var)
    (c : Ptr × Var) (ys : Cells Var)
    → self.type ≡ var_dict
    → IsArray h self.arr (xs ++ (p, v) ∷ c ∷ ys)
    → self.arr.cachepos ≡ some (length xs)
    → AllHashed seed (xs ++ (p, v) ∷ c ∷ ys)
    → find_cell (has_key key) (xs ++ (p, v) ∷ c ∷ ys) ≡ p
    → length (xs ++ (p, v) ∷ c ∷ ys) < fuel
    → (self' : Var) × (h' : Heap Var) × (delete_key fuel h seed self key ≡ some (self', h'))
      × (h' p ≡ none)
      × (find_index h' self' (at (length xs)) ≡ some (p, self'))
delete_key-dangles h self seed fuel key xs p v c ys kind a cached codes here f =
    let all = xs ++ (p, v) ∷ c ∷ ys in
    let k = find_key_lem h self seed fuel key all kind a.list codes f in
    let s = IsRehashed-IsSplit xs p v (c ∷ ys) k.children k.places in
    let (h', l, done, gone) =
      take_out_lem k.after self.arr s.before p s.item s.after
        (subst (IsList k.after self.arr.children) s.whole k.list) in
    let (before, (ne, stored, after)) = Seg-parts h null xs ((p, v) ∷ c ∷ ys) null a.list.nodes in
    let t : (p == null) ≡ false = ground (arith, ne) in
    let low : length xs < self.arr.count - 1 =
      omega (arith, a.counted, length-append xs ((p, v) ∷ c ∷ ys)) in
    let same : (length xs == length xs) ≡ true = ground arith in
    let here' : is_cached self.arr (length xs) ≡ true =
      ap (λ t. elim t as (λ _. Bool) [ none ↦ false | some i ↦ i == length xs ]) cached ∙ same in
    let kept : self.arr.cachenode ≡ p =
      (subst (λ t. IsCached t self.arr.cachenode all) cached a.cache).1
      ∙ address-length xs p v (c ∷ ys) in
    let arr' = record self.arr { children = l; count = self.arr.count - 1 } in
    let self' : Var = record self { arr = arr' } in
    (
      self',
      h',
      delete_key-done h self seed fuel key p k.after h' arr' (ap is_dict kind) t
          (k.found ∙ ap (λ q. some (q, self, k.after)) here) done,
      gone,
      find_index-cached h' self' (length xs) (ap is_array_or_dict kind) low here'
          ∙ ap (λ q. some (q, self')) kept,
    )
