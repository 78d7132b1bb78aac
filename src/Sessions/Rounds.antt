-- ===== src/Sessions/Rounds.antt =====
-- The loops over all buckets, given what their bodies do to one.
use opticon.Prelude.{
  ℕ, zero, suc, ◌+◌, ◌<◌, ◌≡◌, ◌≢◌, refl, sym, subst, true, false, Option, some, arith, ltb, ◌==◌,
  if◌then◌else◌, ℕ_discrete, lt→ltb, length,
}
use opticon.Links.{Ptr, Ends, Heap}
use opticon.Links.Cells.{Cells, has}
use opticon.Links.Unlink.{IsList}
use opticon.Sessions.{Session, Db, set_bucket, each_bucket}
use opticon.Sessions.Buckets.{Lists, set_list, IsDb, set_bucket-IsDb}

pub IsDb-ext :
    (db : Db) (xs ys : Lists) → ((i : ℕ) → i < 256 → xs i ≡ ys i) → IsDb db xs → IsDb db ys
IsDb-ext db xs ys same d = record {
  lists = λ i s. subst (IsList db.heap (db.s i)) (same i s) (d.lists i s);
  apart = λ i j a si sj ne m.
      subst (λ t. has a t ≡ false) (same j sj)
        (d.apart i j a si sj ne (subst (λ t. has a t ≡ true) (sym (same i si)) m));
}

module _ (body : Heap Session → Ends → Option (Heap Session × Ends))
    (g : Cells Session → Cells Session) (bound : ℕ) where
  -- what the body makes of one bucket: nothing is written outside it, and no node is added
  abbrev pub Body : Type 0
  Body =
      (h : Heap Session) (l : Ends) (xs : Cells Session)
      → IsList h l xs
      → length xs < bound
      → (h' : Heap Session) × (l' : Ends) × (body h l ≡ some (h', l'))
        × IsList h' l' (g xs)
        × ((a : Ptr) → has a xs ≡ false → h' a ≡ h a)
        × ((a : Ptr) → has a xs ≡ false → has a (g xs) ≡ false)

  abbrev so_far : Lists → ℕ → Lists
  so_far xs i j = if ltb j i then g (xs j) else xs j

  rounds_lem :
      (rounds i : ℕ) (db : Db) (xs : Lists)
      → Body
      → i + rounds ≡ 256
      → ((j : ℕ) → j < 256 → length (xs j) < bound)
      → IsDb db (so_far xs i)
      → (db' : Db) × (each_bucket body rounds i db ≡ some db') × IsDb db' (λ j. g (xs j))
  unfolding each_bucket
  rounds_lem zero i db xs b e f d = (
    db,
    refl,
    IsDb-ext db (so_far xs i) (λ j. g (xs j))
        (λ j s. let t : ltb j i ≡ true = lt→ltb j i (omega arith) in rw t) d,
  )
  rounds_lem (suc rounds) i db xs b e f d =
      let small : i < 256 = omega arith in
      let self : ltb i i ≡ false = ground arith in
      let here : IsList db.heap (db.s i) (xs i) =
        subst (λ t. IsList db.heap (db.s i) (if t then g (xs i) else xs i)) self
          (d.lists i small) in
      let (h', l', k, list, out, sub) = b db.heap (db.s i) (xs i) here (f i small) in
      let other : (j a : ℕ)
          → j < 256
          → j ≢ i
          → has a (so_far xs i j) ≡ true
          → has a (xs i) ≡ false =
        λ j a sj ne m.
          subst (λ t. has a (if t then g (xs i) else xs i) ≡ false) self
            (d.apart j i a sj small ne m) in
      let db1 : Db = record { heap = h'; s = set_bucket db.s i l' } in
      let d1 : IsDb db1 (set_list (so_far xs i) i (g (xs i))) =
        set_bucket-IsDb db (so_far xs i) i h' l' (g (xs i)) d small list
          (λ j a sj ne m. out a (other j a sj ne m)) (λ j a sj ne m. sub a (other j a sj ne m)) in
      let (db2, k2, d2) = rounds_lem rounds (i + 1) db1 xs b (omega arith) f (
        IsDb-ext db1 (set_list (so_far xs i) i (g (xs i))) (so_far xs (i + 1)) (λ j s. step j)
          d1) in
      (db2, rw k k2, d2)
    where
      step : (j : ℕ) → set_list (so_far xs i) i (g (xs i)) j ≡ so_far xs (i + 1) j
      step j = elim (ℕ_discrete j i) [
        | yes q ↦
            let t : (j == i) ≡ true = ground arith in
            let t' : ltb j (i + 1) ≡ true = ground arith in rw (t, t', q)
        | no n ↦
            let t : (j == i) ≡ false = ground arith in
            let t' : ltb j (i + 1) ≡ ltb j i = ground arith in rw (t, t')
      ]

  pub each_bucket_lem :
      (db : Db) (xs : Lists)
      → Body
      → ((j : ℕ) → j < 256 → length (xs j) < bound)
      → IsDb db xs
      → (db' : Db) × (each_bucket body 256 0 db ≡ some db') × IsDb db' (λ j. g (xs j))
  each_bucket_lem db xs b f d =
      rounds_lem 256 0 db xs b refl f
        (IsDb-ext db xs (so_far xs 0) (λ j s. let t : ltb j 0 ≡ false = ground arith in rw t) d)
