-- ===== src/Notify/Recovery.antt =====
-- `tenant_set_notification` when a reported problem ends; it does not write `isproblem`.
use opticon.Prelude.{
  ℕ, ◌<◌, ◌≡◌, refl, ap, subst, ◌∙◌, true, false, some, List, [], ◌∷◌, ◌++◌, arith, length,
  length-append,
}
use opticon.Links.{Ptr, Ends, Heap}
use opticon.Links.Cells.{Cells}
use opticon.Links.Unlink.{IsList}
use opticon.Links.Walk.{find_cell}
use opticon.Notify.{Notification, set_status, set_notification}
use opticon.Uuid.{Uuid}
use opticon.Notify.Tenant.{about, changed, find_lem, set_found}

abbrev pub Nobody : Uuid → Cells Notification → Type 0
Nobody hostid [] = Unit
Nobody hostid ((a, v) ∷ xs) = (about hostid v ≡ false) × Nobody hostid xs

find_cell-Nobody :
    (hostid : Uuid) (xs : Cells Notification) (a : Ptr) (v : Notification) (ys : Cells Notification)
    → Nobody hostid xs
    → about hostid v ≡ true
    → find_cell (about hostid) (xs ++ (a, v) ∷ ys) ≡ a
find_cell-Nobody hostid [] a v ys n e = rw e
find_cell-Nobody hostid ((b, w) ∷ xs) a v ys n e = rw n.0 (find_cell-Nobody hostid xs a v ys n.1 e)

length_split :
    (xs : Cells Notification) (a : Ptr) (v w : Notification) (ys : Cells Notification)
    → length (xs ++ (a, v) ∷ ys) ≡ length (xs ++ (a, w) ∷ ys)
length_split xs a v w ys =
    omega (arith, length-append {0} xs ((a, v) ∷ ys), length-append {0} xs ((a, w) ∷ ys))

reopened :
    (a : Ptr) (v : Notification) (status : List ℕ) (now : ℕ)
    → v.isproblem ≡ true
    → v.notified ≡ true
    → changed false status now a v
      ≡ (a, record (set_status v status) { lastchange = now; notified = false }) ∷ []
reopened a v status now e e' = ground arith

dropped :
    (a : Ptr) (v : Notification) (status : List ℕ) (now : ℕ)
    → v.isproblem ≡ true
    → v.notified ≡ false
    → changed false status now a v ≡ []
dropped a v status now e e' = ground arith

-- For a host whose reported problem is over, its first notification on the list: after one status
-- that is no problem the notification still says that it is one, unreported and waiting from now; a
-- second such status, with no report between them, drops it.
pub recovery_dropped :
    (fuel p : ℕ) (h : Heap Notification) (l : Ends) (status : List ℕ) (hostid : Uuid)
    (now later : ℕ) (xs : Cells Notification) (a : Ptr) (v : Notification) (ys : Cells Notification)
    → IsList h l (xs ++ (a, v) ∷ ys)
    → length (xs ++ (a, v) ∷ ys) < fuel
    → Nobody hostid xs
    → about hostid v ≡ true
    → v.isproblem ≡ true
    → v.notified ≡ true
    → (h1 : Heap Notification) × (l1 : Ends) × (h2 : Heap Notification) × (l2 : Ends)
      × (set_notification fuel p h l false status hostid now ≡ some (h1, l1))
      × IsList h1 l1
          (xs ++ (a, record (set_status v status) { lastchange = now; notified = false }) ∷ ys)
      × (set_notification fuel p h1 l1 false status hostid later ≡ some (h2, l2))
      × IsList h2 l2 (xs ++ ys)
recovery_dropped fuel p h l status hostid now later xs a v ys i f others mine problem told =
    let w = record (set_status v status) { lastchange = now; notified = false } in
    let (h1, l1, e1, i1) = set_found fuel p h l false status hostid now xs a v ys i (
      find_lem fuel h l hostid (xs ++ (a, v) ∷ ys) i f
      ∙ ap some (find_cell-Nobody hostid xs a v ys others mine)) in
    let i1' : IsList h1 l1 (xs ++ (a, w) ∷ ys) =
      subst (λ t. IsList h1 l1 (xs ++ (t ++ ys))) (reopened a v status now problem told) i1 in
    let (h2, l2, e2, i2) = set_found fuel p h1 l1 false status hostid later xs a w ys i1' (
      find_lem fuel h1 l1 hostid (xs ++ (a, w) ∷ ys) i1' (omega (arith, length_split xs a v w ys))
      ∙ ap some (find_cell-Nobody hostid xs a w ys others mine)) in
    (
      h1,
      l1,
      h2,
      l2,
      e1,
      i1',
      e2,
      subst (λ t. IsList h2 l2 (xs ++ (t ++ ys))) (dropped a w status later problem refl) i2,
    )
