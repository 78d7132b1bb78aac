-- ===== src/Sessions/Keys.antt =====
-- `session_find` after `session_register` (src/libopticon/auth.c).
use opticon.Prelude.{
  ℕ, suc, ◌+◌, ◌<◌, ◌≤◌, ◌≡◌, ◌≢◌, refl, sym, ap, ◌∙◌, Bool, true, false, ◌&&◌, Bool-cases, inl,
  inr, Option, some, List, [], ◌∷◌, arith, ◌==◌, if◌then◌else◌, length, ℕ_discrete, ◌⊎◌,
}
use opticon.Links.{Ptr, null}
use opticon.Links.Cells.{Cells}
use opticon.Links.Walk.{find_cell}
use opticon.Links.Items.{on_first}
use opticon.Uuid.{Uuid}
use opticon.Sessions.{Session, Db, bucket, session_find, session_register, matches}
use opticon.Sessions.Buckets.{Lists, set_list, IsDb, bucket_bound}
use opticon.Sessions.Lookup.{session_find_lem, IsFresh}
use opticon.Sessions.Register.{refreshed, registered, session_register_lem}

module _ (now : ℕ) (sess_key ss : List ℕ) (test : Session → Bool) where
  -- A refresh keeps the key of a session, so each key leads where it led.
  find_cell-on_first :
      (addrpart sess_id : ℕ) (xs : Cells Session)
      → find_cell
          (matches addrpart sess_id)
          (on_first test (λ a s. (a, refreshed now sess_key ss s) ∷ []) [] xs)
        ≡ find_cell (matches addrpart sess_id) xs
  find_cell-on_first addrpart sess_id [] = refl
  find_cell-on_first addrpart sess_id ((p, v) ∷ xs) = elim (Bool-cases (test v)) [
    | inl k ↦ rw k
    | inr k ↦ rw (k, find_cell-on_first addrpart sess_id xs)
  ]

  length-on_first :
      (xs : Cells Session)
      → length (on_first test (λ a s. (a, refreshed now sess_key ss s) ∷ []) [] xs) ≡ length xs
  length-on_first [] = refl
  length-on_first ((p, v) ∷ xs) = elim (Bool-cases (test v)) [
    | inl k ↦ rw k
    | inr k ↦ rw k (ap suc (length-on_first xs))
  ]

module _ (fuel : ℕ) (p : Ptr) (db : Db) (xs : Lists) (tenantid hostid : Uuid) (addrpart sess_id : ℕ)
    (sess_key ss : List ℕ) (h : Ptr) (now : ℕ) where
  abbrev here : Ptr
  here = find_cell (matches addrpart sess_id) (xs (bucket addrpart sess_id))

  abbrev after : Cells Session → Cells Session
  after ys = registered p tenantid hostid addrpart sess_id sess_key ss h now ys

  length-registered : (ys : Cells Session) → length (after ys) ≤ length ys + 1
  length-registered ys = elim (Bool-cases (find_cell (matches addrpart sess_id) ys == null)) [
    | inl k ↦ rw k (omega arith)
    | inr k ↦ rw k (omega (arith, length-on_first now sess_key ss (matches addrpart sess_id) ys))
  ]

  find_cell-registered :
      (addr' sess' : ℕ) (ys : Cells Session)
      → find_cell (matches addr' sess') (after ys) ≡ (
          if (addrpart == addr') && (sess_id == sess')
          then (if find_cell (matches addrpart sess_id) ys == null
              then p
              else find_cell (matches addrpart sess_id) ys)
          else find_cell (matches addr' sess') ys)
  find_cell-registered addr' sess' ys =
      elim (Bool-cases (find_cell (matches addrpart sess_id) ys == null)) [
        | inl k ↦ rw k (split (Bool-cases (addrpart == addr')) (Bool-cases (sess_id == sess')))
        | inr k ↦
            rw (k, find_cell-on_first now sess_key ss (matches addrpart sess_id) addr' sess' ys)
              (keep (Bool-cases (addrpart == addr')) (Bool-cases (sess_id == sess')))
      ]
    where
      split :
          ((addrpart == addr') ≡ true) ⊎ ((addrpart == addr') ≡ false)
          → ((sess_id == sess') ≡ true) ⊎ ((sess_id == sess') ≡ false)
          → (if ((addrpart == addr') && (sess_id == sess')) && true
              then p
              else find_cell (matches addr' sess') ys)
            ≡ (if (addrpart == addr') && (sess_id == sess')
                then p
                else find_cell (matches addr' sess') ys)
      split (inl a) (inl b) = rw (a, b)
      split (inl a) (inr b) = rw (a, b)
      split (inr a) b = rw a

      keep :
          ((addrpart == addr') ≡ true) ⊎ ((addrpart == addr') ≡ false)
          → ((sess_id == sess') ≡ true) ⊎ ((sess_id == sess') ≡ false)
          → find_cell (matches addr' sess') ys ≡ (
              if (addrpart == addr') && (sess_id == sess')
              then find_cell (matches addrpart sess_id) ys
              else find_cell (matches addr' sess') ys)
      keep (inl a) (inl b) =
          let e : addrpart ≡ addr' = ground arith in
          let e' : sess_id ≡ sess' = ground arith in
          rw (a, b)
            (sym (
              ap (λ t. find_cell (matches t sess_id) ys) e
              ∙ ap (λ t. find_cell (matches addr' t) ys) e'))
      keep (inl a) (inr b) = rw (a, b)
      keep (inr a) b = rw a

  abbrev given : Ptr
  given = if here == null then p else here

  find_cell-set_list :
      (addr' sess' : ℕ)
      → find_cell (matches addr' sess') (
          set_list xs
            (bucket addrpart sess_id)
            (after (xs (bucket addrpart sess_id)))
            (bucket addr' sess'))
        ≡ (if (addrpart == addr') && (sess_id == sess')
            then given
            else find_cell (matches addr' sess') (xs (bucket addr' sess')))
  find_cell-set_list addr' sess' =
      elim (ℕ_discrete (bucket addr' sess') (bucket addrpart sess_id)) [
        | yes q ↦
            let t : (bucket addr' sess' == bucket addrpart sess_id) ≡ true = ground arith in
            rw t (
              find_cell-registered addr' sess' (xs (bucket addrpart sess_id))
              ∙ ap
                  (λ k.
                    if (addrpart == addr') && (sess_id == sess')
                    then given
                    else find_cell (matches addr' sess') (xs k))
                  (sym q))
        | no n ↦
            let t : (bucket addr' sess' == bucket addrpart sess_id) ≡ false = ground arith in
            rw t (other (Bool-cases (addrpart == addr')) (Bool-cases (sess_id == sess')) n)
      ]
    where
      other :
          ((addrpart == addr') ≡ true) ⊎ ((addrpart == addr') ≡ false)
          → ((sess_id == sess') ≡ true) ⊎ ((sess_id == sess') ≡ false)
          → bucket addr' sess' ≢ bucket addrpart sess_id
          → find_cell (matches addr' sess') (xs (bucket addr' sess')) ≡ (
              if (addrpart == addr') && (sess_id == sess')
              then given
              else find_cell (matches addr' sess') (xs (bucket addr' sess')))
      other (inl a) (inl b) n =
          let e : addr' ≡ addrpart = ground arith in
          let e' : sess' ≡ sess_id = ground arith in
          absurd (n (ap (λ t. bucket t sess') e ∙ ap (bucket addrpart) e'))
      other (inl a) (inr b) n = rw (a, b)
      other (inr a) b n = rw a

  length-set_list :
      (j : ℕ)
      → length (set_list xs (bucket addrpart sess_id) (after (xs (bucket addrpart sess_id))) j)
        ≤ length (xs j) + 1
  length-set_list j = elim (ℕ_discrete j (bucket addrpart sess_id)) [
    | yes q ↦
        let t : (j == bucket addrpart sess_id) ≡ true = ground arith in
        rw (t, q) (length-registered (xs (bucket addrpart sess_id)))
    | no n ↦ let t : (j == bucket addrpart sess_id) ≡ false = ground arith in rw t (omega arith)
  ]

  -- With a host, a new address and fuel beyond every bucket: after a session is registered its key
  -- leads to it, and every other key where it led before.
  pub find-register :
      (addr' sess' : ℕ)
      → h ≢ null
      → IsDb db xs
      → IsFresh db xs p
      → ((i : ℕ) → i < 256 → length (xs i) + 1 < fuel)
      → (db' : Db) × (s : Ptr) × (session_register fuel p db tenantid hostid addrpart sess_id
            sess_key ss h now
          ≡ some (db', s))
        × (s ≢ null)
        × (session_find fuel db' addr' sess' ≡ (
            if (addrpart == addr') && (sess_id == sess')
            then some s
            else session_find fuel db addr' sess'))
  find-register addr' sess' host_given d fresh f =
      let i = bucket addrpart sess_id in
      let j = bucket addr' sess' in
      let small = bucket_bound addrpart sess_id in
      let small' = bucket_bound addr' sess' in
      let (db', e, d') =
        session_register_lem fuel p db xs tenantid hostid addrpart sess_id sess_key ss h now
          host_given d fresh (omega (arith, f i small)) in
      let before = session_find_lem fuel db xs addr' sess' d (omega (arith, f j small')) in
      let found =
        session_find_lem fuel db' (set_list xs i (after (xs i))) addr' sess' d'
          (omega (arith, f j small', length-set_list j)) in
      (
        db',
        given,
        e,
        given-ne-null fresh.address (Bool-cases (here == null)),
        found
            ∙ ap some (find_cell-set_list addr' sess')
            ∙ either ((addrpart == addr') && (sess_id == sess')) before,
      )
    where
      given-ne-null : p ≢ null → ((here == null) ≡ true) ⊎ ((here == null) ≡ false) → given ≢ null
      given-ne-null ne (inl k) = rw k ne
      given-ne-null ne (inr k) = rw k (λ q. ground arith)

      either :
          (b : Bool) {s : Ptr} {r : Option Ptr}
          → r ≡ some s
          → some (if b then given else s) ≡ (if b then some given else r)
      either true e = refl
      either false e = sym e
