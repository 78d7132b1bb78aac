-- ===== src/Sessions/Tests.antt =====
-- A database with one session, and the theorems at it.
use opticon.Prelude.{
  ℕ, ◌+◌, ◌<◌, ◌≡◌, ◌≢◌, refl, true, false, ◌&&◌, not, Bool-cases, inl, inr, none, some, [], ◌∷◌,
  arith, ◌==◌, if◌then◌else◌, length,
}
use opticon.Links.{Ptr, null, ends, Heap, node, update}
use opticon.Links.Cells.{has}
use opticon.Links.Unlink.{IsList}
use opticon.Links.Walk.{find_cell}
use opticon.Uuid.{Uuid, uuidcmp}
use opticon.Sessions.{
  Session, Db, bucket, session_find, session_register, session_expire, sessiondb_remove_tenant,
  matches,
}
use opticon.Sessions.Buckets.{Lists, set_list, IsDb}
use opticon.Sessions.Lookup.{IsFresh}
use opticon.Sessions.Register.{registered, session_register_lem}
use opticon.Sessions.Keys.{find-register}
use opticon.Sessions.Expire.{keep, session_expire_lem}
use opticon.Sessions.Revoke.{revoke, find-remove_tenant}

abbrev tenant_a : Uuid
tenant_a = record { msb = 1; lsb = 1 }

abbrev seen : Session
seen = record {
  tenantid = tenant_a;
  hostid = record { msb = 5; lsb = 6 };
  addr = 7;
  sessid = 5;
  key = 1 ∷ [];
  lastcycle = 100;
  lastserial = 0;
  host = 40;
  remote = 9 ∷ [];
  expired = false;
}

abbrev nothing : Heap Session
nothing a = none

-- Its bucket is 7 xor 5.
abbrev db : Db
db = record {
  heap = update nothing 16 (some (node null null seen));
  s = λ i. if i == 2 then ends 16 16 else ends null null;
}

abbrev lists : Lists
lists i = if i == 2 then (16, seen) ∷ [] else []

bucket_seen : bucket 7 5 ≡ 2
unfolding bucket
bucket_seen = refl

db-IsDb : IsDb db lists
db-IsDb = record { lists = list; apart = apart }
  where
    list : (i : ℕ) → i < 256 → IsList db.heap (db.s i) (lists i)
    list i s = elim (Bool-cases (i == 2)) [
      | inl k ↦
          rw k (record {
            first = refl;
            last = refl;
            nodes = (omega arith, refl, tt);
            once = (refl, tt);
          })
      | inr k ↦ rw k (record { first = refl; last = refl; nodes = tt; once = tt })
    ]

    apart :
        (i j a : ℕ) → i < 256 → j < 256 → i ≢ j → has a (lists i) ≡ true → has a (lists j) ≡ false
    apart i j a si sj n m = ground arith

lists_short : (i : ℕ) → i < 256 → length (lists i) < 2
lists_short i s = ground arith

lists_room : (i : ℕ) → i < 256 → length (lists i) + 1 < 4
lists_room i s = ground arith

db-IsFresh : IsFresh db lists 24
db-IsFresh = record { address = omega arith; outside = λ i s. ground arith }

session_register_lem_example :
    (db' : Db) × (session_register 4 24 db tenant_a
        (record { msb = 5; lsb = 6 })
        7
        5
        (2 ∷ [])
        (8 ∷ [])
        40
        160
      ≡ some (
        db',
        if find_cell (matches 7 5) (lists (bucket 7 5)) == null
            then 24
            else find_cell (matches 7 5) (lists (bucket 7 5)),
      ))
    × IsDb db' (
        set_list lists (bucket 7 5) (
          registered 24 tenant_a
            (record { msb = 5; lsb = 6 })
            7
            5
            (2 ∷ [])
            (8 ∷ [])
            40
            160
            (lists (bucket 7 5))))
session_register_lem_example =
    session_register_lem 4 24 db lists tenant_a (record { msb = 5; lsb = 6 }) 7 5 (2 ∷ []) (8 ∷ [])
      40 160 (omega arith) db-IsDb db-IsFresh (rw bucket_seen (omega arith))

find-register_example :
    (db' : Db) × (s : Ptr) × (session_register 4 24 db tenant_a
        (record { msb = 5; lsb = 6 })
        7
        9
        (2 ∷ [])
        (8 ∷ [])
        40
        160
      ≡ some (db', s))
    × (s ≢ null)
    × (session_find 4 db' 7 9 ≡ (if (7 == 7) && (9 == 9) then some s else session_find 4 db 7 9))
find-register_example =
    find-register 4 24 db lists tenant_a (record { msb = 5; lsb = 6 }) 7 9 (2 ∷ []) (8 ∷ []) 40 160
      7 9 (omega arith) db-IsDb db-IsFresh lists_room

session_expire_lem_example :
    (db' : Db) × (session_expire 4 db 150 ≡ some db') × IsDb db' (λ i. keep 150 (lists i))
session_expire_lem_example =
    session_expire_lem 4 db lists 150 db-IsDb (λ i low. let few = lists_short i low in omega arith)

find-remove_tenant_example :
    (db' : Db) × (sessiondb_remove_tenant 2 db tenant_a ≡ some db')
    × IsDb db' (λ i. revoke tenant_a (lists i))
    × (session_find 2 db' 7 5
        ≡ some (
            find_cell
              (λ s. matches 7 5 s && not (uuidcmp s.tenantid tenant_a))
              (lists (bucket 7 5))))
find-remove_tenant_example = find-remove_tenant 2 db lists tenant_a 7 5 db-IsDb lists_short
