-- ===== src/Sessions/Expire.antt =====
-- `session_expire` (src/libopticon/auth.c), bucket by bucket.
use opticon.Prelude.{
  ℕ, zero, suc, ◌+◌, ◌*◌, ◌/◌, ◌≤◌, ◌<◌, ◌≡◌, refl, sym, ap, subst, ◌∙◌, Bool, true, false, ◌||◌,
  Bool-cases, inl, inr, Option, some, [], ◌∷◌, ◌++◌, arith, ltb, ◌==◌, if◌then◌else◌, length,
  append_assoc,
}
use opticon.Links.{Ptr, null, Ends, Heap}
use opticon.Links.Cells.{Cells, has, head_or, has-append}
use opticon.Links.Unlink.{IsList, unlink_lem}
use opticon.Links.Relink.{Outside}
use opticon.Links.Items.{load-at, set_item-IsList}
use opticon.Sessions.{Session, Db, expire_round, expire_bucket, session_expire}
use opticon.Sessions.Buckets.{Lists, IsDb}
use opticon.Sessions.Rounds.{each_bucket_lem}

abbrev pub old : ℕ → Session → Bool
old cutoff s = s.expired || ltb s.lastcycle cutoff

-- the sessions that stay
abbrev pub keep : ℕ → Cells Session → Cells Session
keep cutoff [] = []
keep cutoff ((p, v) ∷ xs) = if old cutoff v then keep cutoff xs else (p, v) ∷ keep cutoff xs

-- An unmarked session takes two rounds, since the loop looks at it again once it is marked.
abbrev rounds : Cells Session → ℕ
rounds [] = 0
rounds ((p, v) ∷ xs) = (if v.expired then 1 else 2) + rounds xs

rounds_bound : (xs : Cells Session) → rounds xs ≤ 2 * length xs
rounds_bound [] = omega arith
rounds_bound ((p, v) ∷ xs) = ground (arith, rounds_bound xs)

has-keep :
    (cutoff : ℕ) (a : Ptr) (xs : Cells Session) → has a xs ≡ false → has a (keep cutoff xs) ≡ false
has-keep cutoff a [] e = cc
has-keep cutoff a ((p, v) ∷ xs) e = ground (arith, has-keep cutoff a xs)

abbrev Kept : Heap Session → Option (Heap Session × Ends) → Cells Session → Cells Session → Type 0
Kept h r xs ys =
    (h' : Heap Session) × (l' : Ends) × (r ≡ some (h', l')) × IsList h' l' ys × Outside h h' xs

expire_bucket_lem :
    (fuel : ℕ) (h : Heap Session) (l : Ends) (xs ys : Cells Session) (cutoff : ℕ)
    → IsList h l (xs ++ ys)
    → rounds ys < fuel
    → Kept h (expire_bucket fuel h l (head_or null ys) cutoff) (xs ++ ys) (xs ++ keep cutoff ys)
unfolding expire_bucket expire_round
expire_bucket_lem zero h l xs ys cutoff i f = absurd (omega arith)
expire_bucket_lem (suc fuel) h l xs [] cutoff i f = (h, l, refl, i, λ a m. refl)
expire_bucket_lem (suc fuel) h l xs ((p, v) ∷ ys) cutoff i f =
    let (at, ne) = load-at h l xs p v ys i in
    let some_p : (p == null) ≡ false = ground arith in
    elim (Bool-cases (old cutoff v)) [
      | inl k ↦ elim (Bool-cases v.expired) [
        | inl x ↦
            let (h1, l1, e1, i1, _, out1) = unlink_lem h l xs p v ys i in
            let (h2, l2, e2, i2, out2) =
              expire_bucket_lem fuel h1 l1 xs ys cutoff i1 (ground arith) in
            (
              h2,
              l2,
              rw (at, some_p, k, x, e1) e2,
              rw k i2,
              λ a m.
                  out2 a (ground (arith, has-append a xs ((p, v) ∷ ys), has-append a xs ys))
                  ∙ out1 a m,
            )
        | inr x ↦
            let w = record v { expired = true } in
            let (h1, e1, i1, out1) = set_item-IsList h l xs p v w ys i in
            let (h2, l2, e2, i2, out2) =
              expire_bucket_lem fuel h1 l xs ((p, w) ∷ ys) cutoff i1 (ground arith) in
            (
              h2,
              l2,
              rw (at, some_p, k, x, e1) e2,
              rw k i2,
              λ a m.
                  out2 a
                    (ground (arith, has-append a xs ((p, v) ∷ ys), has-append a xs ((p, w) ∷ ys)))
                  ∙ out1 a (λ q. ground (arith, has-append a xs ((p, v) ∷ ys))),
            )
      ]
      | inr k ↦
          let (h2, l2, e2, i2, out2) =
            expire_bucket_lem fuel h l (xs ++ (p, v) ∷ []) ys cutoff
              (subst (IsList h l) (sym (append_assoc xs ((p, v) ∷ []) ys)) i) (ground arith) in
          (
            h2,
            l2,
            rw (at, some_p, k) e2,
            rw k (subst (IsList h2 l2) (append_assoc xs ((p, v) ∷ []) (keep cutoff ys)) i2),
            subst (Outside h h2) (append_assoc xs ((p, v) ∷ []) ys) out2,
          )
    ]

-- Every bucket is left with its sessions that are neither marked nor last seen before the cut-off,
-- in their order; the pass over each bucket ends where it may take two rounds for each session of
-- the bucket and one more.
pub session_expire_lem :
    (fuel : ℕ) (db : Db) (xs : Lists) (cutoff : ℕ)
    → IsDb db xs
    → ((i : ℕ) → i < 256 → 2 * length (xs i) + 1 ≤ fuel)
    → (db' : Db) × (session_expire fuel db cutoff ≡ some db') × IsDb db' (λ i. keep cutoff (xs i))
unfolding session_expire
session_expire_lem fuel db xs cutoff d f =
    each_bucket_lem (λ h l. expire_bucket fuel h l l.first cutoff) (keep cutoff) ((fuel + 1) / 2) db
      xs
      (λ h l ys i s.
        let (h', l', e, i', out) =
          expire_bucket_lem fuel h l [] ys cutoff i (omega (arith, rounds_bound ys)) in
        (
          h',
          l',
          ap (λ s. expire_bucket fuel h l s cutoff) i.first ∙ e,
          i',
          out,
          λ a m. has-keep cutoff a ys m,
        ))
      (λ i low. let enough = f i low in omega arith) d
