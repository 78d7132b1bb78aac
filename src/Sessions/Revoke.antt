-- ===== src/Sessions/Revoke.antt =====
-- `sessiondb_remove_tenant` (src/libopticon/auth.c), and `session_find` after it.
use opticon.Prelude.{
  ℕ, zero, suc, ◌<◌, ◌≡◌, refl, sym, ap, subst, ◌∙◌, Bool, true, false, ◌&&◌, not, Bool-cases, inl,
  inr, Option, some, [], ◌∷◌, ◌++◌, arith, ◌==◌, if◌then◌else◌, ◌>>=◌, length, append_assoc,
}
use opticon.Links.{Ptr, null, Ends, Heap}
use opticon.Links.Cells.{Cells, has, head_or, has-append}
use opticon.Links.Unlink.{IsList}
use opticon.Links.Relink.{Outside}
use opticon.Links.Items.{load-at, set_item-IsList}
use opticon.Links.Walk.{find_cell}
use opticon.Sessions.Lookup.{session_find_lem}
use opticon.Sessions.{
  Session, Db, bucket, matches, session_find, revoke_bucket, sessiondb_remove_tenant,
}
use opticon.Sessions.Buckets.{Lists, IsDb, bucket_bound}
use opticon.Sessions.Rounds.{each_bucket_lem}
use opticon.Uuid.{Uuid, uuidcmp}

abbrev pub revoked : Uuid → Session → Session
revoked tenantid s = if uuidcmp s.tenantid tenantid then record s { expired = true } else s

abbrev pub revoke : Uuid → Cells Session → Cells Session
revoke tenantid [] = []
revoke tenantid ((p, v) ∷ xs) = (p, revoked tenantid v) ∷ revoke tenantid xs

has-revoke :
    (tenantid : Uuid) (a : Ptr) (xs : Cells Session) → has a (revoke tenantid xs) ≡ has a xs
has-revoke tenantid a [] = refl
has-revoke tenantid a ((p, v) ∷ xs) = ground (arith, has-revoke tenantid a xs)

abbrev Kept : Heap Session → Ends → Option (Heap Session) → Cells Session → Cells Session → Type 0
Kept h l r xs ys = (h' : Heap Session) × (r ≡ some h') × IsList h' l ys × Outside h h' xs

revoke_bucket_lem :
    (fuel : ℕ) (h : Heap Session) (l : Ends) (xs ys : Cells Session) (tenantid : Uuid)
    → IsList h l (xs ++ ys)
    → length ys < fuel
    → Kept h l
        (revoke_bucket fuel h (head_or null ys) tenantid)
        (xs ++ ys)
        (xs ++ revoke tenantid ys)
unfolding revoke_bucket
revoke_bucket_lem zero h l xs ys tenantid i f = absurd (omega arith)
revoke_bucket_lem (suc fuel) h l xs [] tenantid i f = (h, refl, i, λ a m. refl)
revoke_bucket_lem (suc fuel) h l xs ((p, v) ∷ ys) tenantid i f =
    let (at, ne) = load-at h l xs p v ys i in
    let some_p : (p == null) ≡ false = ground arith in
    elim (Bool-cases (uuidcmp v.tenantid tenantid)) [
      | inl k ↦
          let w = record v { expired = true } in
          let (h1, e1, i1, out1) = set_item-IsList h l xs p v w ys i in
          let (h2, e2, i2, out2) =
            revoke_bucket_lem fuel h1 l (xs ++ (p, w) ∷ []) ys tenantid
              (subst (IsList h1 l) (sym (append_assoc xs ((p, w) ∷ []) ys)) i1) (omega arith) in
          let out : Outside h1 h2 (xs ++ (p, w) ∷ ys) =
            subst (Outside h1 h2) (append_assoc xs ((p, w) ∷ []) ys) out2 in
          (
            h2,
            rw (at, some_p, k, e1) e2,
            rw k (subst (IsList h2 l) (append_assoc xs ((p, w) ∷ []) (revoke tenantid ys)) i2),
            λ a m.
                out a (ground (arith, has-append a xs ((p, v) ∷ ys), has-append a xs ((p, w) ∷ ys)))
                ∙ out1 a (λ q. ground (arith, has-append a xs ((p, v) ∷ ys))),
          )
      | inr k ↦
          let (h2, e2, i2, out2) =
            revoke_bucket_lem fuel h l (xs ++ (p, v) ∷ []) ys tenantid
              (subst (IsList h l) (sym (append_assoc xs ((p, v) ∷ []) ys)) i) (omega arith) in
          (
            h2,
            rw (at, some_p, k) e2,
            rw k (subst (IsList h2 l) (append_assoc xs ((p, v) ∷ []) (revoke tenantid ys)) i2),
            subst (Outside h h2) (append_assoc xs ((p, v) ∷ []) ys) out2,
          )
    ]

sessiondb_remove_tenant_lem :
    (fuel : ℕ) (db : Db) (xs : Lists) (tenantid : Uuid)
    → IsDb db xs
    → ((i : ℕ) → i < 256 → length (xs i) < fuel)
    → (db' : Db) × (sessiondb_remove_tenant fuel db tenantid ≡ some db')
      × IsDb db' (λ i. revoke tenantid (xs i))
unfolding sessiondb_remove_tenant
sessiondb_remove_tenant_lem fuel db xs tenantid d f =
    each_bucket_lem (λ h l. revoke_bucket fuel h l.first tenantid >>= λ h'. some (h', l))
      (revoke tenantid) fuel db xs
      (λ h l ys i s.
        let (h', e, i', out) = revoke_bucket_lem fuel h l [] ys tenantid i s in
        (
          h',
          l,
          ap (λ s. revoke_bucket fuel h s tenantid >>= λ h'. some (h', l)) i.first
              ∙ ap (λ r. r >>= λ h'. some (h', l)) e,
          i',
          out,
          λ a m. has-revoke tenantid a ys ∙ m,
        ))
      f d

find_cell-revoke :
    (tenantid : Uuid) (addrpart sess_id : ℕ) (xs : Cells Session)
    → find_cell (matches addrpart sess_id) (revoke tenantid xs)
      ≡ find_cell (λ s. matches addrpart sess_id s && not (uuidcmp s.tenantid tenantid)) xs
find_cell-revoke tenantid addrpart sess_id [] = refl
find_cell-revoke tenantid addrpart sess_id ((p, v) ∷ xs) =
    elim (Bool-cases (uuidcmp v.tenantid tenantid)) [
      | inl k ↦ rw (
        k,
        find_cell-revoke tenantid addrpart sess_id xs,
        and-false ((v.addr == addrpart) && (v.sessid == sess_id)),
        and-false (matches addrpart sess_id v),
      )
      | inr k ↦
          rw (
            k,
            find_cell-revoke tenantid addrpart sess_id xs,
            and-true (matches addrpart sess_id v),
          )
    ]
  where
    and-false : (b : Bool) → (b && false) ≡ false
    and-false true = refl
    and-false false = refl

    and-true : (b : Bool) → (b && true) ≡ b
    and-true true = refl
    and-true false = refl

length-revoke : (tenantid : Uuid) (xs : Cells Session) → length (revoke tenantid xs) ≡ length xs
length-revoke tenantid [] = refl
length-revoke tenantid ((p, v) ∷ xs) = ap suc (length-revoke tenantid xs)

-- With fuel beyond every bucket: in every bucket the tenant's sessions are marked as expired and
-- nothing else changes; a key then leads to the first session that it led to before and that is
-- another tenant's.
pub find-remove_tenant :
    (fuel : ℕ) (db : Db) (xs : Lists) (tenantid : Uuid) (addrpart sess_id : ℕ)
    → IsDb db xs
    → ((i : ℕ) → i < 256 → length (xs i) < fuel)
    → (db' : Db) × (sessiondb_remove_tenant fuel db tenantid ≡ some db')
      × IsDb db' (λ i. revoke tenantid (xs i))
      × (session_find fuel db' addrpart sess_id
          ≡ some (
              find_cell
                (λ s. matches addrpart sess_id s && not (uuidcmp s.tenantid tenantid))
                (xs (bucket addrpart sess_id))))
find-remove_tenant fuel db xs tenantid addrpart sess_id d f =
    let i = bucket addrpart sess_id in
    let (db', e, d') = sessiondb_remove_tenant_lem fuel db xs tenantid d f in
    let short = f i (bucket_bound addrpart sess_id) in
    (
      db',
      e,
      d',
      session_find_lem fuel db' (λ i. revoke tenantid (xs i)) addrpart sess_id d'
            (omega (arith, length-revoke tenantid (xs i)))
          ∙ ap some (find_cell-revoke tenantid addrpart sess_id (xs i)),
    )
