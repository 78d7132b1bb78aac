-- ===== src/Notify/Tenant.antt =====
-- `tenant_set_notification` against a list of notifications without pointers.
use opticon.Prelude.{
  ℕ, ◌<◌, ◌≡◌, ◌≢◌, sym, ap, subst, ◌∙◌, Bool, true, false, Bool-cases, inl, inr, ◌⊎◌, not, ◌&&◌,
  Option, some, List, [], ◌∷◌, ◌++◌, arith, ◌==◌, if◌then◌else◌, length, append-nil,
}
use opticon.Links.{Ptr, null, Ends, Heap, node, update, set_item}
use opticon.Links.Cells.{Cells, has}
use opticon.Links.Unlink.{IsList, IsList-agree, unlink_lem}
use opticon.Links.Walk.{find_cell, first_where_lem}
use opticon.Links.Items.{on_first, locate, load-at, set_item-IsList}
use opticon.Notify.{Notification, blank, create, set_status, same, set_notification, find, remove}
use opticon.Notify.Linking.{IsLoose, IsChain, link_lem}
use opticon.Uuid.{Uuid, uuidcmp}

-- what becomes of the notification that the host has
abbrev pub changed : Bool → List ℕ → ℕ → Ptr → Notification → Cells Notification
changed isproblem status now a n =
    let v = set_status n status in
    if same v.isproblem isproblem
    then (a, v) ∷ []
    else if v.isproblem && not v.notified
    then []
    else (a, record v { lastchange = now; notified = false }) ∷ []

abbrev pub opened : List ℕ → Uuid → ℕ → Notification
opened status hostid now = record (set_status (blank now) status) {
  notified = false;
  isproblem = true;
  lastchange = now;
  hostid = hostid;
}

abbrev pub set_in_list : Ptr → Bool → List ℕ → Uuid → ℕ → Cells Notification → Cells Notification
set_in_list p isproblem status hostid now xs =
    on_first (λ n. uuidcmp hostid n.hostid) (changed isproblem status now)
      (if isproblem then (p, opened status hostid now) ∷ [] else []) xs

abbrev pub Result : Option (Heap Notification × Ends) → Cells Notification → Type 0
Result r xs = (h' : Heap Notification) × (l' : Ends) × (r ≡ some (h', l')) × IsChain h' l' xs

abbrev pub Kept : Option (Heap Notification × Ends) → Cells Notification → Type 0
Kept r xs = (h' : Heap Notification) × (l' : Ends) × (r ≡ some (h', l')) × IsList h' l' xs

chain :
    {h : Heap Notification} {l : Ends} {xs : Cells Notification} → IsList h l xs → IsChain h l xs
chain i = record { first = i.first; nodes = i.nodes; once = i.once }

set_missing :
    (fuel : ℕ) (p : Ptr) (h : Heap Notification) (l : Ends) (isproblem : Bool) (status : List ℕ)
    (hostid : Uuid) (now : ℕ) (xs : Cells Notification)
    → IsList h l xs
    → p ≢ null
    → has p xs ≡ false
    → find fuel h l hostid ≡ some null
    → Result
        (set_notification fuel p h l isproblem status hostid now)
        (xs ++ (if isproblem then (p, opened status hostid now) ∷ [] else []))
unfolding set_notification set_item create
set_missing fuel p h l false status hostid now xs i ne new e =
    (h, l, rw e, subst (IsChain h l) (sym (append-nil xs)) (chain i))
set_missing fuel p h l true status hostid now xs i ne new e =
    let h1 = create h p now in
    let w = opened status hostid now in
    let h2 = update h1 p (some (node null null w)) in
    let clear : (p == null) ≡ false = ground arith in
    let stored : set_item h1 p w ≡ some h2 = ground arith in
    let i2 : IsList h2 l xs = IsList-agree h h2 l xs (λ a m. other a m (Bool-cases (a == p))) i in
    let loose : IsLoose h2 p w xs = record { address = ne; at = ground arith; outside = new } in
    let (h3, l3, k, c, _) = link_lem h2 l xs p w i2 loose in (h3, l3, rw (e, stored) k, c)
  where
    other :
        (a : Ptr)
        → has a xs ≡ true
        → ((a == p) ≡ true) ⊎ ((a == p) ≡ false)
        → update (create h p now) p (some (node null null (opened status hostid now))) a ≡ h a
    other a m (inl k) =
        let at : a ≡ p = ground arith in absurd (cc (sym m ∙ ap (λ b. has b xs) at ∙ new))
    other a m (inr k) = ground arith

pub set_found :
    (fuel : ℕ) (p : Ptr) (h : Heap Notification) (l : Ends) (isproblem : Bool) (status : List ℕ)
    (hostid : Uuid) (now : ℕ) (xs : Cells Notification) (a : Ptr) (v : Notification)
    (ys : Cells Notification)
    → IsList h l (xs ++ (a, v) ∷ ys)
    → find fuel h l hostid ≡ some a
    → Kept
        (set_notification fuel p h l isproblem status hostid now)
        (xs ++ (changed isproblem status now a v ++ ys))
unfolding set_notification remove
set_found fuel p h l isproblem status hostid now xs a v ys i e =
    let (at, ne) = load-at h l xs a v ys i in
    let v1 = set_status v status in
    let (h1, e1, i1, _) = set_item-IsList h l xs a v v1 ys i in
    let some_a : (a == null) ≡ false = ground arith in
    elim (Bool-cases (same v.isproblem isproblem)) [
      | inl k ↦ (h1, l, rw (e, at, some_a, e1, k), rw k i1)
      | inr k ↦ elim (Bool-cases (v.isproblem && not v.notified)) [
        | inl k' ↦
            let (h2, l2, e2, i2, _, _) = unlink_lem h1 l xs a v1 ys i1 in
            (h2, l2, rw (e, at, some_a, e1, k, k') e2, rw (k, k') i2)
        | inr k' ↦
            let v2 = record v1 { lastchange = now; notified = false } in
            let (h2, e2, i2, _) = set_item-IsList h1 l xs a v1 v2 ys i1 in
            (h2, l, rw (e, at, some_a, e1, k, k', e2), rw (k, k') i2)
      ]
    ]

abbrev pub about : Uuid → Notification → Bool
about hostid n = uuidcmp hostid n.hostid

pub find_lem :
    (fuel : ℕ) (h : Heap Notification) (l : Ends) (hostid : Uuid) (xs : Cells Notification)
    → IsList h l xs
    → length xs < fuel
    → find fuel h l hostid ≡ some (find_cell (about hostid) xs)
unfolding find
find_lem fuel h l hostid xs i f =
    rw i.first (first_where_lem (about hostid) h fuel null xs i.nodes f)

-- On a list whose `last` is right, with a new address and fuel beyond its length: the notification
-- of the host takes the status; if it changed side it is dropped, when it told of a problem not yet
-- reported, or else waits again from now; and a host without one gets one at the end of the list,
-- when it has a problem.
pub set_notification_refines :
    (fuel : ℕ) (p : Ptr) (h : Heap Notification) (l : Ends) (isproblem : Bool) (status : List ℕ)
    (hostid : Uuid) (now : ℕ) (xs : Cells Notification)
    → IsList h l xs
    → p ≢ null
    → has p xs ≡ false
    → length xs < fuel
    → (h' : Heap Notification) × (l' : Ends) × (set_notification fuel p h l isproblem status hostid
          now
        ≡ some (h', l'))
      × IsChain h' l' (set_in_list p isproblem status hostid now xs)
set_notification_refines fuel p h l isproblem status hostid now xs i ne new f =
    let at = find_lem fuel h l hostid xs i f in
    let found = changed isproblem status now in
    let added : Cells Notification = if isproblem then (p, opened status hostid now) ∷ [] else [] in
    elim (locate (about hostid) xs) [
      | inl r ↦
          let (h', l', e, k) =
            set_found fuel p h l isproblem status hostid now r.before r.address r.item r.after
              (subst (IsList h l) r.split i) (at ∙ ap some r.cell) in
          (h', l', e, subst (IsChain h' l') (sym (r.replaced found added)) (chain k))
      | inr r ↦
          let (h', l', e, k) =
            set_missing fuel p h l isproblem status hostid now xs i ne new (at ∙ ap some r.cell) in
          (h', l', e, subst (IsChain h' l') (sym (r.added found added)) k)
    ]
