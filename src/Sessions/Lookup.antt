-- ===== src/Sessions/Lookup.antt =====
-- `session_find` and `session_link` over the buckets as lists.
use opticon.Prelude.{
  ℕ, ◌<◌, ◌≡◌, ◌≢◌, refl, sym, ap, ◌∙◌, true, false, Bool-cases, inl, inr, some, [], ◌∷◌, arith,
  ◌==◌, length,
}
use opticon.Links.{Ptr, null, Ends, ends, Heap, node, update, first_where}
use opticon.Links.Cells.{Cells, has, head_or}
use opticon.Links.Segments.{Seg-agree}
use opticon.Links.Unlink.{IsList}
use opticon.Links.Relink.{Outside, set_next-at, set_prev-at}
use opticon.Links.Walk.{find_cell, first_where_lem}
use opticon.Sessions.{
  Session, Db, bucket, set_bucket, link_top, session_link, session_find, matches,
}
use opticon.Sessions.Buckets.{Lists, set_list, IsDb, set_bucket-IsDb, bucket_bound}

pub session_find_lem :
    (fuel : ℕ) (db : Db) (xs : Lists) (addrpart sess_id : ℕ)
    → IsDb db xs
    → length (xs (bucket addrpart sess_id)) < fuel
    → session_find fuel db addrpart sess_id
      ≡ some (find_cell (matches addrpart sess_id) (xs (bucket addrpart sess_id)))
unfolding session_find
session_find_lem fuel db xs addrpart sess_id d f =
    let i = bucket addrpart sess_id in
    let list = d.lists i (bucket_bound addrpart sess_id) in
    ap (λ s. first_where (matches addrpart sess_id) db.heap fuel s) list.first
    ∙ first_where_lem (matches addrpart sess_id) db.heap fuel null (xs i) list.nodes f

-- a new node: allocated, and in no bucket
pub record IsFresh (db : Db) (xs : Lists) (p : Ptr) : Type 0 where
  pub address : p ≢ null
  pub outside : (i : ℕ) → i < 256 → has p (xs i) ≡ false

link_top_lem :
    (h : Heap Session) (l : Ends) (p : Ptr) (v : Session) (ys : Cells Session)
    → IsList h l ys
    → p ≢ null
    → h p ≡ some (node null null v)
    → has p ys ≡ false
    → (h' : Heap Session) × (l' : Ends) × (link_top h l p ≡ some (h', l'))
      × IsList h' l' ((p, v) ∷ ys)
      × Outside h h' ((p, v) ∷ ys)
unfolding link_top
link_top_lem h l p v [] i ne at new =
    let empty : (l.first == null) ≡ true = ground (arith, i.first) in
    (
      h,
      ends p p,
      rw empty,
      record { first = refl; last = refl; nodes = (ne, at, tt); once = (refl, tt) },
      λ a m. refl,
    )
link_top_lem h l p v ((q, w) ∷ ys) i ne at new =
    let (q_ne, q_at, after) = i.nodes in
    let first : l.first ≡ q = i.first in
    let some_q : (q == null) ≡ false = ground arith in
    let pq : p ≢ q = λ k. ground arith in
    let h1 = update h p (some (node null q v)) in
    let h2 = update h1 q (some (node p (head_or null ys) w)) in
    let down = set_next-at h p null null q v ne at in
    let up = set_prev-at h1 q null (head_or null ys) p w q_ne (ground arith) in
    (
      h2,
      record l { first = p },
      rw (first, some_q, down, up),
      record {
        first = refl;
        last = i.last;
        nodes = (
          ne,
          ground arith,
          (q_ne, ground arith, Seg-agree h h2 q ys null (λ a m. ground arith) after),
        );
        once = (new, i.once);
      },
      λ a m. ground arith,
    )

abbrev pub key_bucket : Session → ℕ
key_bucket s = bucket s.addr s.sessid

-- A new session stands first in its bucket, and the other buckets are as they were.
pub session_link_lem :
    (db : Db) (xs : Lists) (p : Ptr) (v : Session)
    → IsDb db xs
    → IsFresh db xs p
    → db.heap p ≡ some (node null null v)
    → (db' : Db) × (session_link db p ≡ some db')
      × IsDb db' (set_list xs (key_bucket v) ((p, v) ∷ xs (key_bucket v)))
unfolding session_link
session_link_lem db xs p v d fresh at =
    let i = key_bucket v in
    let small = bucket_bound v.addr v.sessid in
    let ne = fresh.address in
    let some_p : (p == null) ≡ false = ground arith in
    let (h', l', e, list, out) =
      link_top_lem db.heap (db.s i) p v (xs i) (d.lists i small) ne at (fresh.outside i small) in
    let apart : (j a : ℕ) → j < 256 → j ≢ i → has a (xs j) ≡ true → has a ((p, v) ∷ xs i) ≡ false =
      λ j a sj n m. away p v a (xs i) (xs j) (fresh.outside j sj) m (d.apart j i a sj small n m) in
    (
      record { heap = h'; s = set_bucket db.s i l' },
      rw (some_p, at, e),
      set_bucket-IsDb db xs i h' l' ((p, v) ∷ xs i) d small list
          (λ j a sj n m. out a (apart j a sj n m)) apart,
    )
  where
    away :
        (p : Ptr) (v : Session) (a : Ptr) (ys zs : Cells Session)
        → has p zs ≡ false
        → has a zs ≡ true
        → has a ys ≡ false
        → has a ((p, v) ∷ ys) ≡ false
    away p v a ys zs new m m' = elim (Bool-cases (a == p)) [
      | inl k ↦ let at : a ≡ p = ground arith in absurd (cc (sym m ∙ ap (λ b. has b zs) at ∙ new))
      | inr k ↦ rw k m'
    ]
