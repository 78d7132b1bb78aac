-- ===== src/Watch/Lists.antt =====
-- The lists of watches and of adjustments.
use opticon.Prelude.{
  ℕ, ◌-◌, ◌*◌, ◌/◌, ◌%◌, ◌^◌, Bool, Bool-cases, inl, inr, length-append, ◌+◌, ◌<◌, ◌≡◌, ◌≢◌, refl,
  sym, ap, ◌∙◌, subst, true, false, Option, some, [], ◌∷◌, ◌++◌, length, arith, ◌==◌, bit_and,
}
use opticon.MeterId.{mmask_name}
use opticon.Prelude.Bits.{bit_and_shifted, bit_and_ones}
use opticon.Links.{Node, Ptr, null, ends, node, update, Heap, first_where}
use opticon.Links.Cells.{Cells, last_or, has-append, last_or-append}
use opticon.Links.Segments.{Seg, Seg-parts}
use opticon.Links.Relink.{Outside, set_next-at, set_prev-at}
use opticon.Links.Append.{IsNew, snoc, HasLinked, append_cell, Outside-append}
use opticon.Links.Walk.{find_cell, first_where_lem}
use opticon.Links.Unlink.{IsList}
use opticon.Watch.{Owned, add, WatchAdjust, adjustlist_find, adjustlist_get, has_name, new_adjust}

module _ {A : Type 0} where
  -- The list with one node more.
  pub record HasAdded (self self' : Owned A) (xs : Cells A) (p : Ptr) (v : A) : Type 0 where
    pub list : IsList self'.heap self'.list (xs ++ (p, v) ∷ [])
    pub elsewhere : Outside self.heap self'.heap (xs ++ (p, v) ∷ [])

  update_thrice :
      (h : Heap A) (p q : Ptr) (b c d : Option (Node A)) (a : Ptr)
      → a ≢ q
      → a ≢ p
      → update (update (update h p b) p c) q d a ≡ h a
  update_thrice h p q b c d a k k' =
      let aq : (a == q) ≡ false = ground arith in
      let ap' : (a == p) ≡ false = ground arith in rw (aq, ap') refl

  add_behind :
      (self : Owned A) (ys : Cells A) (q : Ptr) (w : A) (p : Ptr) (v : A)
      → IsList self.heap self.list (ys ++ (q, w) ∷ [])
      → IsNew p (ys ++ (q, w) ∷ [])
      → (self' : Owned A) × (add self p v ≡ some self')
        × HasAdded self self' (ys ++ (q, w) ∷ []) p v
  unfolding add
  add_behind self ys q w p v i new =
      let (before, (ne, at, after)) = Seg-parts self.heap null ys ((q, w) ∷ []) null i.nodes in
      let out = new.outside in
      let p_ne = new.address in
      let pq : p ≢ q = λ k. ground (arith, has-append p ys ((q, w) ∷ [])) in
      let qp : (q == p) ≡ false = ground (arith, pq) in
      let pq' : (p == q) ≡ false = ground (arith, pq) in
      let qq : (q == q) ≡ true = ground arith in
      let pp : (p == p) ≡ true = ground arith in
      let pr = last_or null ys in
      let is_last : self.list.last ≡ q = i.last ∙ last_or-append null ys ((q, w) ∷ []) in
      let some_last : (q == null) ≡ false = ground arith in
      let h1 = update self.heap p (some (node null null v)) in
      let h2 = update h1 p (some (node q null v)) in
      let h3 = update h2 q (some (node pr p w)) in
      let back = set_prev-at h1 p null null q v p_ne (rw pp refl) in
      let forth = set_next-at h2 q pr null p w ne (rw qp at) in
      let linked : HasLinked self.heap h3 pr q p w v = record {
        old_last = rw qq refl;
        new_last = rw (pq', pp) refl;
        others = update_thrice self.heap p q _ _ _;
      } in
      (
        record { heap = h3; list = ends self.list.first p },
        rw (is_last, some_last, back, forth) refl,
        record {
          list = append_cell self.heap h3 self.list ys q w p v i new linked;
          elsewhere = Outside-append self.heap h3 ys pr q p w v linked;
        },
      )

  pub add_lem :
      (self : Owned A) (xs : Cells A) (p : Ptr) (v : A)
      → IsList self.heap self.list xs
      → IsNew p xs
      → (self' : Owned A) × (add self p v ≡ some self') × HasAdded self self' xs p v
  unfolding add
  add_lem self [] p v i new =
      let empty : (self.list.last == null) ≡ true = ap (λ t. t == null) i.last in
      let p_ne = new.address in
      (
        record { heap = update self.heap p (some (node null null v)); list = ends p p },
        rw empty refl,
        record {
          list = record {
            first = refl;
            last = refl;
            nodes = (p_ne, ground arith, tt);
            once = (refl, tt);
          };
          elsewhere = λ a m. ground arith;
        },
      )
  add_lem self (c ∷ xs) p v i new =
      let (ys, q, w, e) = snoc c xs in
      let (self', done, added) =
        add_behind self ys q w p v (subst (IsList self.heap self.list) e i)
          (subst (IsNew p) e new) in
      (self', done, subst (λ t. HasAdded self self' t p v) (sym e) added)

find_lem :
    (self : Owned WatchAdjust) (xs : Cells WatchAdjust) (fuel id : ℕ)
    → IsList self.heap self.list xs
    → length xs < fuel
    → adjustlist_find fuel self id ≡ some (find_cell (has_name id) xs)
unfolding adjustlist_find
find_lem self xs fuel id i f =
    ap (first_where (has_name id) self.heap fuel) i.first
    ∙ first_where_lem (has_name id) self.heap fuel null xs i.nodes f

-- The mask of a name, once and twice.
masked : (id : ℕ) → bit_and id mmask_name ≡ id / 32 % 2 ^ 57 * 32
masked id = bit_and_shifted 5 id (2 ^ 57 - 1) ∙ ap (λ (t : ℕ). t * 32) (bit_and_ones 57 (id / 32))

new_adjust-has_name : (id : ℕ) → has_name id (new_adjust id) ≡ true
new_adjust-has_name id =
    let again : bit_and (bit_and id mmask_name) mmask_name ≡ bit_and id mmask_name =
      masked (bit_and id mmask_name)
      ∙ ap (λ (t : ℕ). t / 32 % 2 ^ 57 * 32) (masked id)
      ∙ omega arith
      ∙ sym (masked id) in
    ground arith

find_cell-added :
    (test : WatchAdjust → Bool) (h : Heap WatchAdjust) (pr : Ptr) (xs : Cells WatchAdjust) (p : Ptr)
    (v : WatchAdjust)
    → Seg h pr xs null
    → find_cell test xs ≡ null
    → test v ≡ true
    → find_cell test (xs ++ (p, v) ∷ []) ≡ p
find_cell-added test h pr [] p v s missing e = rw e refl
find_cell-added test h pr ((q, w) ∷ xs) p v (ne, at, s) missing e = elim (Bool-cases (test w)) [
  | inl t ↦ absurd (ne (rw t at missing))
  | inr t ↦ rw t (find_cell-added test h q xs p v s (rw t at missing) e)
]

-- The adjustment of a name is the first one that has it, and nothing is written.
pub adjustlist_get-finds :
    (self : Owned WatchAdjust) (xs : Cells WatchAdjust) (fuel : ℕ) (p : Ptr) (id : ℕ)
    → IsList self.heap self.list xs
    → find_cell (has_name id) xs ≢ null
    → length xs < fuel
    → adjustlist_get fuel self p id ≡ some (find_cell (has_name id) xs, self)
unfolding adjustlist_get
adjustlist_get-finds self xs fuel p id i found f =
    let e : (find_cell (has_name id) xs == null) ≡ false = ground (arith, found) in
    rw (find_lem self xs fuel id i f, e) refl

-- A name that no adjustment of the list has gets a new one, which adjusts nothing: it is put behind
-- the others and returned, no other node but the last is written, and from then on a lookup by that
-- name gives the new one and writes nothing.
pub adjustlist_get-adds :
    (self : Owned WatchAdjust) (xs : Cells WatchAdjust) (fuel : ℕ) (p : Ptr) (id : ℕ)
    → IsList self.heap self.list xs
    → IsNew p xs
    → find_cell (has_name id) xs ≡ null
    → length xs + 1 < fuel
    → (self' : Owned WatchAdjust) × (adjustlist_get fuel self p id ≡ some (p, self'))
      × HasAdded self self' xs p (new_adjust id)
      × ((p' : Ptr) → adjustlist_get fuel self' p' id ≡ some (p, self'))
unfolding adjustlist_get
adjustlist_get-adds self xs fuel p id i new missing f =
    let (self', done, added) = add_lem self xs p (new_adjust id) i new in
    let newest : find_cell (has_name id) (xs ++ (p, new_adjust id) ∷ []) ≡ p =
      find_cell-added (has_name id) self.heap null xs p (new_adjust id) i.nodes missing
        (new_adjust-has_name id) in
    let longer : length (xs ++ (p, new_adjust id) ∷ []) < fuel =
      omega (arith, length-append xs ((p, new_adjust id) ∷ [])) in
    (
      self',
      rw (find_lem self xs fuel id i (omega arith), missing, done) refl,
      added,
      λ p'.
          adjustlist_get-finds self' (xs ++ (p, new_adjust id) ∷ []) fuel p' id added.list
            (λ k. new.address (sym newest ∙ k)) longer
          ∙ ap (λ t. some (t, self')) newest,
    )
