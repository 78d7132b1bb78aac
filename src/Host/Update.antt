-- ===== src/Host/Update.antt =====
-- `host_end_update`: the meters that were not updated for too long go, those of a stale host stay.
use opticon.Prelude.{
  ℕ, zero, suc, ◌-◌, ◌<◌, ◌≡◌, refl, sym, ap, ◌∙◌, subst, Bool, true, false, ◌&&◌, Option, some,
  ◌>>=◌, [], ◌∷◌, ◌++◌, append_assoc, length, length-append, arith, ltb, ◌==◌, if◌then◌else◌,
  Bool-cases, inl, inr,
}
use opticon.Prelude.Text.{same, codes}
use opticon.Links.{free_all, Ptr, null, load}
use opticon.Links.Cells.{Cells, head_or}
use opticon.Links.Walk.{find_cell}
use opticon.Links.Segments.{Seg}
use opticon.Links.Items.{load-at, set_item-IsList}
use opticon.Meter.{Meter, get_str}
use opticon.Host.{Host, sweep, end_update, empty_trash, find_meter, has_id, mid_status}
use opticon.Host.Lists.{IsHost, first_where-IsList}
use opticon.Host.Deleting.{delete_meter_leaks}

-- not updated in this round, and for longer than the timeout
abbrev pub is_expired : ℕ → ℕ → Meter → Bool
is_expired timeout last m = ltb m.lastmodified last && ltb timeout (last - m.lastmodified)

-- what is left of the meters
abbrev pub kept : ℕ → ℕ → Cells Meter → Cells Meter
kept timeout last [] = []
kept timeout last ((p, m) ∷ xs) =
    if is_expired timeout last m then kept timeout last xs else (p, m) ∷ kept timeout last xs

abbrev pub refreshed : ℕ → Cells Meter → Cells Meter
refreshed last [] = []
refreshed last ((p, m) ∷ xs) = (p, record m { lastmodified = last }) ∷ refreshed last xs

abbrev pub after_round : Bool → ℕ → ℕ → Cells Meter → Cells Meter
after_round is_stale timeout last xs = if is_stale then refreshed last xs else kept timeout last xs

-- what the status of a host says, `none` where its meter has no text
abbrev pub says_stale : Cells Meter → Option Bool
says_stale [] = some false
says_stale ((p, m) ∷ xs) =
    let rest = says_stale xs in
    if has_id mid_status m
    then (do status ← get_str m 0; some (same status (codes "STALE")))
    else rest

join_one :
    (ds : Cells Meter) (c : Ptr × Meter) (xs : Cells Meter) → (ds ++ c ∷ []) ++ xs ≡ ds ++ c ∷ xs
join_one ds c xs = append_assoc ds (c ∷ []) xs

-- The loop, with the meters `ds` before the next one.
sweep_lem :
    (fuel timeout last : ℕ) (is_stale : Bool) (h : Host) (ds xs : Cells Meter)
    → IsHost h (ds ++ xs)
    → h.trash ≡ null
    → length xs < fuel
    → (h' : Host) × (sweep fuel timeout is_stale last h (head_or null xs) ≡ some h')
      × IsHost h' (ds ++ after_round is_stale timeout last xs)
      × (h'.trash ≡ null)
      × (h'.lastmodified ≡ h.lastmodified)
unfolding sweep
sweep_lem zero timeout last is_stale h ds xs i clean f = absurd (omega arith)
sweep_lem (suc fuel) timeout last true h ds [] i clean f = (h, refl, i, clean, refl)
sweep_lem (suc fuel) timeout last false h ds [] i clean f = (h, refl, i, clean, refl)
sweep_lem (suc fuel) timeout last true h ds ((p, m) ∷ xs) i clean f =
    let (at, ne) = load-at h.heap h.meters ds p m xs i.list in
    let some_p : (p == null) ≡ false = ground arith in
    let new : Meter = record m { lastmodified = last } in
    let (heap, done, list, _) = set_item-IsList h.heap h.meters ds p m new xs i.list in
    let h1 : Host = record h { heap = heap } in
    let i1 : IsHost h1 ((ds ++ (p, new) ∷ []) ++ xs) =
      subst (IsHost h1) (sym (join_one ds (p, new) xs)) (record {
        list = list;
        counted =
            omega
              (arith, i.counted, length-append ds ((p, m) ∷ xs), length-append ds ((p, new) ∷ xs));
      }) in
    let (h2, swept, i2, clean2, same_time) =
      sweep_lem fuel timeout last true h1 (ds ++ (p, new) ∷ []) xs i1 clean (omega arith) in
    (
      h2,
      rw (some_p, rw some_p at at, done) swept,
      subst (IsHost h2) (join_one ds (p, new) (refreshed last xs)) i2,
      clean2,
      same_time,
    )
sweep_lem (suc fuel) timeout last false h ds ((p, m) ∷ xs) i clean f =
    let (at, ne) = load-at h.heap h.meters ds p m xs i.list in
    let some_p : (p == null) ≡ false = ground arith in
    elim (Bool-cases (is_expired timeout last m)) [
      | inl e ↦
          let (h1, done, i1, clean1, t1, _, _, _) = delete_meter_leaks h ds p m xs i clean in
          let (h2, swept, i2, clean2, t2) =
            sweep_lem fuel timeout last false h1 ds xs i1 clean1 (omega arith) in
          (h2, rw (some_p, rw some_p at at, e, done) swept, rw e i2, clean2, t2 ∙ t1)
      | inr e ↦
          let i1 : IsHost h ((ds ++ (p, m) ∷ []) ++ xs) =
            subst (IsHost h) (sym (join_one ds (p, m) xs)) i in
          let (h2, swept, i2, clean2, t2) =
            sweep_lem fuel timeout last false h (ds ++ (p, m) ∷ []) xs i1 clean (omega arith) in
          (
            h2,
            rw (some_p, rw some_p at at, e) swept,
            rw e (subst (IsHost h2) (join_one ds (p, m) (kept timeout last xs)) i2),
            clean2,
            t2,
          )
    ]

found_text :
    (h : Host) (pr : Ptr) (xs : Cells Meter)
    → Seg h.heap pr xs null
    → (if find_cell (has_id mid_status) xs == null then some false else (do
      c ← load h.heap (find_cell (has_id mid_status) xs)
      status ← get_str c.item 0
      some (same status (codes "STALE"))))
      ≡ says_stale xs
found_text h pr [] s = refl
found_text h pr ((p, m) ∷ xs) (ne, at, s) =
    let some_p : (p == null) ≡ false = ground arith in
    elim (Bool-cases (has_id mid_status m)) [
      | inl e ↦ rw (e, some_p, at) refl
      | inr e ↦ rw e (found_text h p xs s)
    ]

-- A host whose trash is empty, the text of whose status meter, if it has one, can be read: after
-- the round the meters are those that were updated at the time of the last update or not longer
-- than the timeout before it, in their order and as they were; on a host whose status is "STALE"
-- all meters stay, with the time of the last update.
pub end_update_lem :
    (h : Host) (xs : Cells Meter) (fuel timeout : ℕ) (is_stale : Bool)
    → IsHost h xs
    → h.trash ≡ null
    → says_stale xs ≡ some is_stale
    → length xs < fuel
    → (h' : Host) × (end_update fuel timeout h ≡ some h')
      × IsHost h' (after_round is_stale timeout h.lastmodified xs)
unfolding end_update empty_trash free_all
end_update_lem h xs fuel timeout is_stale i clean says f =
    let found : find_meter fuel h mid_status ≡ some (find_cell (has_id mid_status) xs) =
      unfold find_meter in first_where-IsList (has_id mid_status) h xs fuel i f in
    let test = found_text h null xs i.list.nodes ∙ says in
    let emptied : empty_trash fuel h ≡ some (record h { trash = null }) =
      nothing_to_free h fuel clean (omega arith) in
    let (h', swept, i', _, _) =
      sweep_lem fuel timeout h.lastmodified is_stale (record h { trash = null }) [] xs
        (record { list = i.list; counted = i.counted }) refl f in
    let start = i.list.first in
    (
      h',
      rw (found, test, emptied)
          (ap (sweep fuel timeout is_stale h.lastmodified (record h { trash = null })) start
            ∙ swept),
      i',
    )
  where
    nothing_to_free :
        (h : Host) (fuel : ℕ)
        → h.trash ≡ null
        → 0 < fuel
        → empty_trash fuel h ≡ some (record h { trash = null })
    nothing_to_free h zero e f = absurd (omega arith)
    nothing_to_free h (suc fuel) e f = rw e refl
