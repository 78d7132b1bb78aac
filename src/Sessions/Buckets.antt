-- ===== src/Sessions/Buckets.antt =====
-- The buckets as lists: each is a list of its own, and no two share a node.
use opticon.Prelude.{
  ℕ, ◌<◌, ◌≡◌, ◌≢◌, sym, ◌∙◌, true, false, Bool-cases, inl, inr, arith, ◌==◌, if◌then◌else◌,
  ℕ_discrete,
}
use opticon.Links.{Ends, Heap}
use opticon.Links.Cells.{Cells, has}
use opticon.Links.Unlink.{IsList, IsList-agree}
use opticon.Sessions.{Session, Db, set_bucket, bucket}

-- what each bucket holds
abbrev pub Lists : Type 0
Lists = ℕ → Cells Session

abbrev pub set_list : Lists → ℕ → Cells Session → Lists
set_list xs i ys j = if j == i then ys else xs j

pub record IsDb (db : Db) (xs : Lists) : Type 0 where
  pub lists : (i : ℕ) → i < 256 → IsList db.heap (db.s i) (xs i)
  pub apart : (i j a : ℕ) → i < 256 → j < 256 → i ≢ j → has a (xs i) ≡ true → has a (xs j) ≡ false

pub bucket_bound : (addrpart sess_id : ℕ) → bucket addrpart sess_id < 256
unfolding bucket
bucket_bound addrpart sess_id = omega arith

-- An operation on one bucket that leaves the nodes of the others alone.
pub set_bucket-IsDb :
    (db : Db) (xs : Lists) (i : ℕ) (h' : Heap Session) (l' : Ends) (ys : Cells Session)
    → IsDb db xs
    → i < 256
    → IsList h' l' ys
    → ((j a : ℕ) → j < 256 → j ≢ i → has a (xs j) ≡ true → h' a ≡ db.heap a)
    → ((j a : ℕ) → j < 256 → j ≢ i → has a (xs j) ≡ true → has a ys ≡ false)
    → IsDb (record { heap = h'; s = set_bucket db.s i l' }) (set_list xs i ys)
set_bucket-IsDb db xs i h' l' ys d small here agree fresh = record {
  lists = lists';
  apart = apart';
}
  where
    lists' : (j : ℕ) → j < 256 → IsList h' (set_bucket db.s i l' j) (set_list xs i ys j)
    lists' j sj = elim (ℕ_discrete j i) [
      | yes e ↦ let t : (j == i) ≡ true = ground arith in rw t here
      | no n ↦
          let t : (j == i) ≡ false = ground arith in
          rw t (IsList-agree db.heap h' (db.s j) (xs j) (λ a m. agree j a sj n m) (d.lists j sj))
    ]

    apart' :
        (j k a : ℕ)
        → j < 256
        → k < 256
        → j ≢ k
        → has a (set_list xs i ys j) ≡ true
        → has a (set_list xs i ys k) ≡ false
    apart' j k a sj sk ne = elim (ℕ_discrete j i) [
      | yes e ↦
          let t : (j == i) ≡ true = ground arith in
          let t' : (k == i) ≡ false = ground arith in
          rw (t, t')
            (λ m. elim (Bool-cases (has a (xs k))) [
              | inl k' ↦ absurd (cc (sym m ∙ fresh k a sk (λ q. ne (e ∙ sym q)) k'))
              | inr k' ↦ k'
            ])
      | no n ↦ elim (ℕ_discrete k i) [
        | yes e ↦
            let t : (j == i) ≡ false = ground arith in
            let t' : (k == i) ≡ true = ground arith in rw (t, t') (λ m. fresh j a sj n m)
        | no n' ↦
            let t : (j == i) ≡ false = ground arith in
            let t' : (k == i) ≡ false = ground arith in rw (t, t') (λ m. d.apart j k a sj sk ne m)
      ]
    ]
