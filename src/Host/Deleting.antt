-- ===== src/Host/Deleting.antt =====
-- `host_delete_meter` on a host whose trash is empty, which it is from `host_alloc` on.
use opticon.Prelude.{
  ◌-◌, ◌≡◌, refl, sym, ap, ◌∙◌, true, false, some, ◌∷◌, ◌++◌, length-append, arith, ◌==◌,
  Bool-cases, inl, inr,
}
use opticon.Links.{Ptr, null, node, update}
use opticon.Links.Cells.{Cells, has, Distinct, has-append, Distinct-append}
use opticon.Links.Relink.{Outside}
use opticon.Links.Unlink.{IsList-agree, unlink_lem}
use opticon.Links.Items.{load-at}
use opticon.Meter.{Meter, no_data, sz_empty_val}
use opticon.Meter.Values.{set_empty_lem}
use opticon.Host.{Host, delete_meter}
use opticon.Host.Lists.{IsHost}

-- what a deleted meter becomes
abbrev pub emptied : Meter → Meter
emptied m = record m { count = sz_empty_val; d = no_data; lastmodified = 0 }

pub Distinct-middle :
    (xs : Cells Meter) (p : Ptr) (m : Meter) (ys : Cells Meter)
    → Distinct (xs ++ (p, m) ∷ ys)
    → has p (xs ++ ys) ≡ false
Distinct-middle xs p m ys d =
    let (dx, (new, dy), apart) = Distinct-append xs ((p, m) ∷ ys) d in
    elim (Bool-cases (has p xs)) [
      | inl e ↦ let k = apart p e in absurd (ground arith)
      | inr e ↦ ground (arith, has-append p xs ys)
    ]

-- A meter of a host with no trash is taken out: the others keep their order and the count goes down
-- by one. The trash stays empty, and the memory of the meter stays allocated, though nothing points
-- to it any more.
pub delete_meter_leaks :
    (h : Host) (xs : Cells Meter) (p : Ptr) (m : Meter) (ys : Cells Meter)
    → IsHost h (xs ++ (p, m) ∷ ys)
    → h.trash ≡ null
    → (h' : Host) × (delete_meter h p ≡ some h')
      × IsHost h' (xs ++ ys)
      × (h'.trash ≡ null)
      × (h'.lastmodified ≡ h.lastmodified)
      × (h'.heap p ≡ some (node null null (emptied m)))
      × (has p (xs ++ ys) ≡ false)
      × Outside h.heap h'.heap (xs ++ (p, m) ∷ ys)
unfolding delete_meter
delete_meter_leaks h xs p m ys i clean =
    let (at, ne) = load-at h.heap h.meters xs p m ys i.list in
    let (h1, l1, done, list, freed, out) = unlink_lem h.heap h.meters xs p m ys i.list in
    let gone = Distinct-middle xs p m ys (i.list).once in
    let loose = update h1 p (some (node null h.trash (emptied m))) in
    let h' : Host = record h { heap = loose; meters = l1; mcount = h.mcount - 1 } in
    let no_trash : (h.trash == null) ≡ true = ap (λ t. t == null) clean in
    (
      h',
      rw (at, done, set_empty_lem h.lastmodified m, no_trash) refl,
      record {
        list =
            IsList-agree h1 loose l1 (xs ++ ys)
              (λ a e. elim (Bool-cases (a == p)) [
                | inl k ↦
                    let q : a ≡ p = ground arith in
                    absurd (cc (sym e ∙ ap (λ t. has t (xs ++ ys)) q ∙ gone))
                | inr k ↦ rw k refl
              ])
              list;
        counted = omega (arith, i.counted, length-append xs ((p, m) ∷ ys), length-append xs ys);
      },
      clean,
      refl,
      (let self : (p == p) ≡ true = ground arith in rw (self, clean) refl),
      gone,
      λ a e. ground (arith, has-append a xs ((p, m) ∷ ys), out a e),
    )
