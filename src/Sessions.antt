-- ===== src/Sessions.antt =====
-- src/libopticon/auth.c: the sessions that agents have opened, in 256 buckets. A session's `host`,
-- its key and its remote address are carried as they are given; `time (NULL)` is `now`, and
-- `malloc` is the address given to `session_link` and `session_register`.
pub mod Buckets
pub mod Rounds
pub mod Lookup
pub mod Register
pub mod Keys
pub mod Expire
pub mod Revoke
mod Tests
use opticon.Prelude.{
  ℕ, zero, suc, ◌+◌, ◌-◌, ◌/◌, ◌%◌, ◌^◌, bit_and, bit_xor, Bool, true, false, ◌&&◌, ◌||◌, not,
  Option, none, some, ◌>>=◌, List, [], ◌∷◌, ltb, ◌==◌, if◌then◌else◌,
}
use opticon.Links.{
  Ptr, null, Ends, ends, Node, Heap, node, update, load, set_next, set_prev, set_item, unlink,
  first_where,
}
use opticon.Uuid.{Uuid, uuidcmp}

pub record Session : Type 0 where
  pub tenantid : Uuid
  pub hostid : Uuid
  pub addr : ℕ
  pub sessid : ℕ
  pub key : List ℕ
  pub lastcycle : ℕ
  pub lastserial : ℕ
  pub host : Ptr
  pub remote : List ℕ
  pub expired : Bool

-- `DBSESSIONS`, with the memory that its nodes are in
pub record Db : Type 0 where
  pub heap : Heap Session
  pub s : ℕ → Ends

abbrev pub set_bucket : (ℕ → Ends) → ℕ → Ends → ℕ → Ends
set_bucket s i l j = if j == i then l else s j

-- the bucket of a session; a `uint8_t`
pub bucket : ℕ → ℕ → ℕ
bucket addrpart sess_id =
    let sid = bit_xor sess_id addrpart in
    bit_xor
      (bit_xor (bit_xor (sid / 2 ^ 24) (bit_and sid 0x00ff0000 / 2 ^ 16))
        (bit_and sid 0x0000ff00 / 2 ^ 8))
      (bit_and sid 0xff)
    % 2 ^ 8

-- `session_link`, on the bucket
pub link_top : Heap Session → Ends → Ptr → Option (Heap Session × Ends)
link_top h l p = if l.first == null then some (h, ends p p) else (do
  h1 ← set_next h p l.first
  h2 ← set_prev h1 l.first p
  some (h2, record l { first = p }))

pub session_link : Db → Ptr → Option Db
session_link db p = do
  c ← load db.heap p
  let i = bucket c.item.addr c.item.sessid
  (h', l') ← link_top db.heap (db.s i) p
  some (record { heap = h'; s = set_bucket db.s i l' })

abbrev pub matches : ℕ → ℕ → Session → Bool
matches addrpart sess_id s = (s.addr == addrpart) && (s.sessid == sess_id) && not s.expired

-- `session_find`; `fuel` bounds the walk along the bucket
pub session_find : ℕ → Db → ℕ → ℕ → Option Ptr
session_find fuel db addrpart sess_id =
    first_where (matches addrpart sess_id) db.heap fuel (db.s (bucket addrpart sess_id)).first

-- `session_register`, with `h` what `host_find` gives; `p` is the address of a new session
pub session_register :
    ℕ → Ptr → Db → Uuid → Uuid → ℕ → ℕ → List ℕ → List ℕ → Ptr → ℕ → Option (Db × Ptr)
session_register fuel p db tenantid hostid addrpart sess_id sess_key ss h now =
    if h == null then some (db, null) else (do
      s ← session_find fuel db addrpart sess_id
      if s == null
          then (do
            let v : Session = record {
              tenantid = tenantid;
              hostid = hostid;
              addr = addrpart;
              sessid = sess_id;
              key = sess_key;
              lastcycle = now;
              lastserial = 0;
              host = h;
              remote = ss;
              expired = false;
            }
            db' ← session_link (record db { heap = update db.heap p (some (node null null v)) }) p
            some (db', p))
          else (do
            c ← load db.heap s
            let v = record c.item { lastcycle = now; key = sess_key; remote = ss }
            g ← set_item db.heap s v
            some (record db { heap = g }, s)))

-- one round of the inner loop of `session_expire`: the memory, the bucket and the next `s`
pub expire_round : Heap Session → Ends → Ptr → ℕ → Option (Heap Session × Ends × Ptr)
expire_round h l s cutoff = do
  c ← load h s
  if c.item.expired || ltb c.item.lastcycle cutoff
      then (if not c.item.expired
          then (do h' ← set_item h s (record c.item { expired = true }); some (h', l, s))
          else (do (h', l') ← unlink h l s; some (h', l', c.next)))
      else some (h, l, c.next)

pub expire_bucket : ℕ → Heap Session → Ends → Ptr → ℕ → Option (Heap Session × Ends)
expire_bucket zero h l s cutoff = none
expire_bucket (suc fuel) h l s cutoff =
    let rest = (do (h', l', s') ← expire_round h l s cutoff; expire_bucket fuel h' l' s' cutoff) in
    if s == null then some (h, l) else rest

-- the outer loops, with the number of buckets that are left
pub each_bucket : (Heap Session → Ends → Option (Heap Session × Ends)) → ℕ → ℕ → Db → Option Db
each_bucket body zero i db = some db
each_bucket body (suc rounds) i db = do
  (h', l') ← body db.heap (db.s i)
  each_bucket body rounds (i + 1) (record { heap = h'; s = set_bucket db.s i l' })

pub session_expire : ℕ → Db → ℕ → Option Db
session_expire fuel db cutoff = each_bucket (λ h l. expire_bucket fuel h l l.first cutoff) 256 0 db

-- the inner loop of `sessiondb_remove_tenant`
pub revoke_bucket : ℕ → Heap Session → Ptr → Uuid → Option (Heap Session)
revoke_bucket zero h s tenantid = none
revoke_bucket (suc fuel) h s tenantid =
    let rest = (do
      c ← load h s
      h' ←
          if uuidcmp c.item.tenantid tenantid
          then set_item h s (record c.item { expired = true })
          else some h
      revoke_bucket fuel h' c.next tenantid) in
    if s == null then some h else rest

pub sessiondb_remove_tenant : ℕ → Db → Uuid → Option Db
sessiondb_remove_tenant fuel db tenantid =
    each_bucket (λ h l. do h' ← revoke_bucket fuel h l.first tenantid; some (h', l)) 256 0 db
