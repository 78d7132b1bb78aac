-- ===== src/Sessions/Register.antt =====
-- `session_register` (src/libopticon/auth.c) over the buckets as lists.
use opticon.Prelude.{
  ℕ, ◌<◌, ◌≡◌, ◌≢◌, sym, ap, subst, ◌∙◌, true, false, Bool-cases, inl, inr, some, List, [], ◌∷◌,
  ◌++◌, arith, ◌==◌, if◌then◌else◌, length, ℕ_discrete, ◌⊎◌,
}
use opticon.Links.{Ptr, null, Heap, node, update, set_item}
use opticon.Links.Cells.{Cells, has, has-append}
use opticon.Links.Unlink.{IsList, IsList-agree}
use opticon.Links.Walk.{find_cell}
use opticon.Links.Items.{on_first, locate, load-at, set_item-IsList}
use opticon.Uuid.{Uuid}
use opticon.Sessions.{Session, Db, bucket, set_bucket, session_register, matches}
use opticon.Sessions.Buckets.{Lists, set_list, IsDb, set_bucket-IsDb, bucket_bound}
use opticon.Sessions.Lookup.{session_find_lem, IsFresh, session_link_lem}

IsDb-alloc :
    (db : Db) (xs : Lists) (p : Ptr) (v : Session)
    → IsDb db xs
    → IsFresh db xs p
    → IsDb (record db { heap = update db.heap p (some (node null null v)) }) xs
IsDb-alloc db xs p v d fresh = record {
  lists = λ i s.
      IsList-agree db.heap (update db.heap p (some (node null null v))) (db.s i) (xs i)
        (λ a m. other a (xs i) m (fresh.outside i s) (Bool-cases (a == p))) (d.lists i s);
  apart = d.apart;
}
  where
    other :
        (a : Ptr) (ys : Cells Session)
        → has a ys ≡ true
        → has p ys ≡ false
        → ((a == p) ≡ true) ⊎ ((a == p) ≡ false)
        → update db.heap p (some (node null null v)) a ≡ db.heap a
    other a ys m new (inl k) =
        let at : a ≡ p = ground arith in absurd (cc (sym m ∙ ap (λ b. has b ys) at ∙ new))
    other a ys m new (inr k) = rw k

-- A write to the item of one node of one bucket.
IsDb-set_item :
    (db : Db) (xs : Lists) (i : ℕ) (before : Cells Session) (a : Ptr) (v w : Session)
    (after : Cells Session)
    → IsDb db xs
    → i < 256
    → xs i ≡ before ++ (a, v) ∷ after
    → (g : Heap Session) × (set_item db.heap a w ≡ some g)
      × IsDb (record db { heap = g }) (set_list xs i (before ++ (a, w) ∷ after))
IsDb-set_item db xs i before a v w after d small e =
    let list : IsList db.heap (db.s i) (before ++ (a, v) ∷ after) =
      subst (IsList db.heap (db.s i)) e (d.lists i small) in
    let (g, k, list', out) = set_item-IsList db.heap (db.s i) before a v w after list in
    let here : has a (xs i) ≡ true =
      ap (has a) e ∙ has-append a before ((a, v) ∷ after) ∙ ground arith in
    let d' : IsDb (record { heap = g; s = set_bucket db.s i (db.s i) })
        (set_list xs i (before ++ (a, w) ∷ after)) =
      set_bucket-IsDb db xs i g (db.s i) (before ++ (a, w) ∷ after) d small list'
        (λ j b sj n m.
          out b (λ q. cc (sym (d.apart j i b sj small n m) ∙ ap (λ c. has c (xs i)) q ∙ here)))
        (λ j b sj n m.
          has-append b before ((a, w) ∷ after)
          ∙ sym (has-append b before ((a, v) ∷ after))
          ∙ ap (has b) (sym e)
          ∙ d.apart j i b sj small n m) in
    (
      g,
      k,
      record {
        lists = λ j s.
            subst (λ l. IsList g l (set_list xs i (before ++ (a, w) ∷ after) j)) (self j)
              (d'.lists j s);
        apart = d'.apart;
      },
    )
  where
    self : (j : ℕ) → set_bucket db.s i (db.s i) j ≡ db.s j
    self j = elim (ℕ_discrete j i) [
      | yes q ↦ let t : (j == i) ≡ true = ground arith in rw (t, q)
      | no n ↦ let t : (j == i) ≡ false = ground arith in rw t
    ]

abbrev pub refreshed : ℕ → List ℕ → List ℕ → Session → Session
refreshed now sess_key ss s = record s { lastcycle = now; key = sess_key; remote = ss }

abbrev pub registered :
    Ptr → Uuid → Uuid → ℕ → ℕ → List ℕ → List ℕ → Ptr → ℕ → Cells Session → Cells Session
registered p tenantid hostid addrpart sess_id sess_key ss h now xs =
    if find_cell (matches addrpart sess_id) xs == null
    then (
      p,
      record {
        tenantid = tenantid;
        hostid = hostid;
        addr = addrpart;
        sessid = sess_id;
        key = sess_key;
        lastcycle = now;
        lastserial = 0;
        host = h;
        remote = ss;
        expired = false;
      },
    )
      ∷ xs
    else on_first (matches addrpart sess_id) (λ a s. (a, refreshed now sess_key ss s) ∷ []) [] xs

module _ (fuel : ℕ) (p : Ptr) (db : Db) (xs : Lists) (tenantid hostid : Uuid) (addrpart sess_id : ℕ)
    (sess_key ss : List ℕ) (h : Ptr) (now : ℕ) where
  -- With a host, a new address and fuel beyond the bucket: a known session takes the new key,
  -- remote address and time; any other is new, first in its bucket.
  pub session_register_lem :
      h ≢ null
      → IsDb db xs
      → IsFresh db xs p
      → length (xs (bucket addrpart sess_id)) < fuel
      → (db' : Db) × (session_register fuel p db tenantid hostid addrpart sess_id sess_key ss h now
          ≡ some (
            db',
            if find_cell (matches addrpart sess_id) (xs (bucket addrpart sess_id)) == null
                then p
                else find_cell (matches addrpart sess_id) (xs (bucket addrpart sess_id)),
          ))
        × IsDb db' (
            set_list xs (bucket addrpart sess_id) (
              registered p tenantid hostid addrpart sess_id sess_key ss h now
                (xs (bucket addrpart sess_id))))
  unfolding session_register
  session_register_lem host_given d fresh f =
      let i = bucket addrpart sess_id in
      let found = session_find_lem fuel db xs addrpart sess_id d f in
      let some_h : (h == null) ≡ false = ground arith in
      elim (locate (matches addrpart sess_id) (xs i)) [
        | inl r ↦
            let list =
              subst (IsList db.heap (db.s i)) r.split (d.lists i (bucket_bound addrpart sess_id)) in
            let (at, ne) = load-at db.heap (db.s i) r.before r.address r.item r.after list in
            let some_a : (find_cell (matches addrpart sess_id) (xs i) == null) ≡ false =
              ground (arith, r.cell) in
            let some_address : (r.address == null) ≡ false = ground arith in
            let (g, k, d') =
              IsDb-set_item db xs i r.before r.address r.item (refreshed now sess_key ss r.item)
                r.after d (bucket_bound addrpart sess_id) r.split in
            let same : r.before ++ (r.address, refreshed now sess_key ss r.item) ∷ r.after
                ≡ registered p tenantid hostid addrpart sess_id sess_key ss h now (xs i) =
              rw some_a (sym (r.replaced (λ a s. (a, refreshed now sess_key ss s) ∷ []) [])) in
            (
              record db { heap = g },
              rw (some_h, found, r.cell, at, some_address, k),
              subst (λ t. IsDb (record db { heap = g }) (set_list xs i t)) same d',
            )
        | inr r ↦
            let v : Session = record {
              tenantid = tenantid;
              hostid = hostid;
              addr = addrpart;
              sessid = sess_id;
              key = sess_key;
              lastcycle = now;
              lastserial = 0;
              host = h;
              remote = ss;
              expired = false;
            } in
            let db1 : Db = record db { heap = update db.heap p (some (node null null v)) } in
            let fresh1 : IsFresh db1 xs p = record {
              address = fresh.address;
              outside = fresh.outside;
            } in
            let self : (p == p) ≡ true = ground arith in
            let (db2, e2, d2) =
              session_link_lem db1 xs p v (IsDb-alloc db xs p v d fresh) fresh1 (rw self) in
            (db2, rw (some_h, found, r.cell, e2), rw r.cell d2)
      ]
