-- ===== src/Host/Adding.antt =====
-- `host_get_meter`: the meter that is there, or a new one at the end.
use opticon.Prelude.{
  ℕ, zero, suc, ◌+◌, ◌<◌, ◌≡◌, ◌≢◌, refl, sym, ap, ◌∙◌, subst, true, false, some, [], ◌∷◌, ◌++◌,
  length, length-append, arith, ◌==◌, Bool-cases, inl, inr, bit_and,
}
use opticon.Links.{Ptr, null, ends, node, update}
use opticon.Links.Cells.{Cells, last_or, has-append, last_or-append}
use opticon.Links.Segments.{Seg, Seg-parts}
use opticon.Links.Relink.{Outside, set_next-at, set_prev-at}
use opticon.Links.Append.{IsNew, snoc, HasLinked, append_cell, Outside-append}
use opticon.Links.Walk.{find_cell}
use opticon.Meter.{Meter}
use opticon.Host.{Host, mmask_id, fresh, is_taken, append_meter, get_from, get_meter}
use opticon.Host.Lists.{IsHost, Nowhere}

-- a host with one meter more, nothing else of it changed
pub record HasAdded (h h' : Host) (xs : Cells Meter) (p : Ptr) (m : Meter) : Type 0 where
  pub list : IsHost h' (xs ++ (p, m) ∷ [])
  pub trash : h'.trash ≡ h.trash
  pub lastmodified : h'.lastmodified ≡ h.lastmodified
  pub elsewhere : Outside h.heap h'.heap (xs ++ (p, m) ∷ [])

-- The writes behind the last node.
append_last :
    (h : Host) (ys : Cells Meter) (q : Ptr) (w : Meter) (p : Ptr) (rid : ℕ)
    → IsHost h (ys ++ (q, w) ∷ [])
    → IsNew p (ys ++ (q, w) ∷ [])
    → (h' : Host) × (append_meter h p rid q ≡ some (p, h'))
      × HasAdded h h' (ys ++ (q, w) ∷ []) p (fresh rid)
unfolding append_meter
append_last h ys q w p rid i new =
    let (before, (ne, at, after)) = Seg-parts h.heap null ys ((q, w) ∷ []) null i.list.nodes in
    let out = new.outside in
    let p_ne = new.address in
    let pq : p ≢ q = λ k. ground (arith, has-append p ys ((q, w) ∷ [])) in
    let pr = last_or null ys in
    let h1 = update h.heap p (some (node null null (fresh rid))) in
    let h2 = update h1 q (some (node pr p w)) in
    let h3 = update h2 p (some (node q null (fresh rid))) in
    let forth = set_next-at h1 q pr null p w ne (ground arith) in
    let back = set_prev-at h2 p null null q (fresh rid) p_ne (ground arith) in
    let linked : HasLinked h.heap h3 pr q p w (fresh rid) = record {
      old_last = ground arith;
      new_last = ground arith;
      others = λ a k k'. ground arith;
    } in
    let h' : Host = record h { heap = h3; meters = ends h.meters.first p; mcount = h.mcount + 1 } in
    (
      h',
      rw (forth, back) refl,
      record {
        list = record {
          list = append_cell h.heap h3 h.meters ys q w p (fresh rid) i.list new linked;
          counted =
              omega (arith, i.counted, length-append (ys ++ (q, w) ∷ []) ((p, fresh rid) ∷ []));
        };
        trash = refl;
        lastmodified = refl;
        elsewhere = Outside-append h.heap h3 ys pr q p w (fresh rid) linked;
      },
    )

-- The walk past meters that are not taken ends at the last.
get_from-last :
    (h : Host) (p : Ptr) (rid fuel : ℕ) (pr a : Ptr) (v : Meter) (xs : Cells Meter)
    → Seg h.heap pr ((a, v) ∷ xs) null
    → Nowhere (is_taken rid) ((a, v) ∷ xs)
    → length xs < fuel
    → get_from fuel h p rid a ≡ append_meter h p rid (last_or a xs)
unfolding get_from
get_from-last h p rid zero pr a v xs s all f = absurd (omega arith)
get_from-last h p rid (suc fuel) pr a v [] (ne, at, s) (e, all) f =
    let t : (a == null) ≡ false = ground arith in rw (t, at, e) refl
get_from-last h p rid (suc fuel) pr a v ((b, w) ∷ xs) (ne, at, s) (e, all) f =
    let t : (a == null) ≡ false = ground arith in
    let t' : (b == null) ≡ false = ground (arith, s.0) in
    rw (t, at, e, t') (get_from-last h p rid fuel a b w xs s all (omega arith))

get_from-taken :
    (h : Host) (p : Ptr) (rid fuel : ℕ) (pr a : Ptr) (v : Meter) (xs : Cells Meter)
    → Seg h.heap pr ((a, v) ∷ xs) null
    → find_cell (is_taken rid) ((a, v) ∷ xs) ≢ null
    → length xs < fuel
    → get_from fuel h p rid a ≡ some (find_cell (is_taken rid) ((a, v) ∷ xs), h)
unfolding get_from
get_from-taken h p rid zero pr a v xs s found f = absurd (omega arith)
get_from-taken h p rid (suc fuel) pr a v [] (ne, at, s) found f =
    let t : (a == null) ≡ false = ground arith in
    elim (Bool-cases (is_taken rid v)) [
      | inl e ↦ rw (t, at, e) refl
      | inr e ↦ absurd (found (rw e refl))
    ]
get_from-taken h p rid (suc fuel) pr a v ((b, w) ∷ xs) (ne, at, s) found f =
    let t : (a == null) ≡ false = ground arith in
    let t' : (b == null) ≡ false = ground (arith, s.0) in
    elim (Bool-cases (is_taken rid v)) [
      | inl e ↦ rw (t, at, e) refl
      | inr e ↦
          rw (t, at, e, t') (get_from-taken h p rid fuel a b w xs s (rw e at found) (omega arith))
    ]

first_meter :
    (h : Host) (p : Ptr) (rid : ℕ)
    → IsNew {A = Meter} p []
    → HasAdded h
        (record h {
          heap = update h.heap p (some (node null null (fresh rid)));
          meters = ends p p;
          mcount = 1;
        })
        []
        p
        (fresh rid)
first_meter h p rid new =
    let p_ne = new.address in
    record {
      list = record {
        list = record {
          first = refl;
          last = refl;
          nodes = (p_ne, ground arith, tt);
          once = (refl, tt);
        };
        counted = refl;
      };
      trash = refl;
      lastmodified = refl;
      elsewhere = λ a m. ground arith;
    }

-- A host none of whose meters has the id, nor the name with the mark of an empty array, gets a new
-- meter with the id and no value, behind the others; the count goes up by one, and nothing else is
-- written.
pub get_meter-adds :
    (h : Host) (xs : Cells Meter) (fuel : ℕ) (p : Ptr) (id : ℕ)
    → IsHost h xs
    → IsNew p xs
    → Nowhere (is_taken (bit_and id mmask_id)) xs
    → length xs < fuel
    → (h' : Host) × (get_meter fuel h p id ≡ some (p, h'))
      × HasAdded h h' xs p (fresh (bit_and id mmask_id))
unfolding get_meter
get_meter-adds h [] fuel p id i new all f =
    let empty : (h.meters.first == null) ≡ true = ap (λ t. t == null) i.list.first in
    let rid = bit_and id mmask_id in
    let h' : Host = record h {
      heap = update h.heap p (some (node null null (fresh rid)));
      meters = ends p p;
      mcount = 1;
    } in
    (h', rw empty refl, first_meter h p rid new)
get_meter-adds h ((a, v) ∷ xs) fuel p id i new all f =
    let l = i.list in
    let rid = bit_and id mmask_id in
    let start : h.meters.first ≡ a = l.first in
    let some_first : (h.meters.first == null) ≡ false =
      ap (λ t. t == null) start ∙ ground (arith, l.nodes.0) in
    let (ys, q, w, e) = snoc (a, v) xs in
    let (h', done, added) =
      append_last h ys q w p rid (subst (IsHost h) e i) (subst (IsNew p) e new) in
    let final : last_or a xs ≡ q = ap (last_or null) e ∙ last_or-append null ys ((q, w) ∷ []) in
    let walked =
      get_from-last h p rid fuel null a v xs l.nodes all (omega arith)
      ∙ ap (append_meter h p rid) final
      ∙ done in
    (
      h',
      rw some_first (ap (get_from fuel h p rid) start ∙ walked),
      subst (λ t. HasAdded h h' t p (fresh rid)) (sym e) added,
    )

-- Where a meter has the id, or the name with the mark, the first such meter is returned, and
-- nothing is written.
pub get_meter-finds :
    (h : Host) (xs : Cells Meter) (fuel : ℕ) (p : Ptr) (id : ℕ)
    → IsHost h xs
    → find_cell (is_taken (bit_and id mmask_id)) xs ≢ null
    → length xs < fuel
    → get_meter fuel h p id ≡ some (find_cell (is_taken (bit_and id mmask_id)) xs, h)
unfolding get_meter
get_meter-finds h [] fuel p id i found f = absurd (found refl)
get_meter-finds h ((a, v) ∷ xs) fuel p id i found f =
    let l = i.list in
    let rid = bit_and id mmask_id in
    let start : h.meters.first ≡ a = l.first in
    let some_first : (h.meters.first == null) ≡ false =
      ap (λ t. t == null) start ∙ ground (arith, l.nodes.0) in
    rw some_first (
      ap (get_from fuel h p rid) start
      ∙ get_from-taken h p rid fuel null a v xs l.nodes found (omega arith))
