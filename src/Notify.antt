-- ===== src/Notify.antt =====
-- src/libopticon/notify.c, and the notifications of a tenant (src/libopticon/tenant.c). `malloc` is
-- the address given to `create`, `time (NULL)` is `now`, and a status is its text up to the NUL.
pub mod Linking
pub mod Lost
pub mod Tenant
pub mod Recovery
pub mod Report
mod Tests
use opticon.Prelude.{
  ℕ, zero, suc, ◌-◌, Bool, true, false, ◌&&◌, not, Option, none, some, ◌>>=◌, List, [], ◌∷◌, ltb,
  ◌==◌, if◌then◌else◌, take,
}
use opticon.Links.{
  Ptr, null, Ends, ends, Node, Heap, node, update, load, set_next, set_prev, set_item, unlink,
  first_where, free_all,
}
use opticon.Uuid.{Uuid, uuidcmp, uuidnil}

pub record Notification : Type 0 where
  pub hostid : Uuid
  pub notified : Bool
  pub isproblem : Bool
  pub status : List ℕ
  pub lastchange : ℕ

abbrev pub blank : ℕ → Notification
blank now = record {
  hostid = uuidnil;
  notified = false;
  isproblem = false;
  status = [];
  lastchange = now;
}

-- `notification_create`
pub create : Heap Notification → Ptr → ℕ → Heap Notification
create h p now = update h p (some (node null null (blank now)))

-- `notifylist_init`
pub init : Ends
init = ends null null

-- The functions whose names start with `notifylist_`; `fuel` bounds the walk along the list.
pub clear : ℕ → Heap Notification → Ends → Option (Heap Notification × Ends)
clear fuel h self = do h' ← free_all h fuel self.first; some (h', ends null null)

pub remove : Heap Notification → Ends → Ptr → Option (Heap Notification × Ends)
remove h self n = unlink h self n

pub link : Heap Notification → Ends → Ptr → Option (Heap Notification × Ends)
link h self n = do
  h1 ← set_next h n null
  if self.last == null
      then (do h2 ← set_prev h1 n null; some (h2, ends n n))
      else (do h2 ← set_prev h1 n self.last; h3 ← set_next h2 self.last n; some (h3, self))

pub find : ℕ → Heap Notification → Ends → Uuid → Option Ptr
find fuel h self hostid = first_where (λ n. uuidcmp hostid n.hostid) h fuel self.first

-- The two tests subtract as signed numbers, and a negative number passes neither.
abbrev pub waited : ℕ → ℕ → Notification → Bool
waited seconds tnow n = ltb seconds (tnow - n.lastchange) && not n.notified

pub check_actionable : ℕ → Heap Notification → Ends → ℕ → Option Bool
check_actionable fuel h self tnow = do
  n ← first_where (waited 290 tnow) h fuel self.first
  some (not (n == null))

pub find_overdue : ℕ → Heap Notification → Ends → Ptr → ℕ → Option Ptr
find_overdue fuel h self n tnow = do
  start ← if n == null then some self.first else (do c ← load h n; some c.next)
  first_where (waited 120 tnow) h fuel start

-- `strncpy (n->status, status, 15); n->status[15] = 0;`
abbrev pub set_status : Notification → List ℕ → Notification
set_status n status = record n { status = take 15 status }

abbrev pub same : Bool → Bool → Bool
same true b = b
same false b = not b

-- `tenant_set_notification`, on the tenant's list; `p` is the address of a new notification
pub set_notification :
    ℕ
    → Ptr
    → Heap Notification
    → Ends
    → Bool
    → List ℕ
    → Uuid
    → ℕ
    → Option (Heap Notification × Ends)
set_notification fuel p h self isproblem status hostid now = do
  n ← find fuel h self hostid
  if n == null
      then (if isproblem
          then (do
            h' ← set_item (create h p now) p (record (set_status (blank now) status) {
              notified = false;
              isproblem = isproblem;
              lastchange = now;
              hostid = hostid;
            })
            link h' self p)
          else some (h, self))
      else (do
        c ← load h n
        let v = set_status c.item status
        h' ← set_item h n v
        if same v.isproblem isproblem
            then some (h', self)
            else if v.isproblem && not v.notified
            then remove h' self n
            else (do
              h'' ← set_item h' n (record v { lastchange = now; notified = false })
              some (h'', self)))

-- what a report says of a host
pub record Issue : Type 0 where
  pub host : Uuid
  pub status : List ℕ
  pub isproblem : ℕ

abbrev pub issue : Notification → Issue
issue n = record { host = n.hostid; status = n.status; isproblem = if n.isproblem then 1 else 0 }

abbrev pub marked : Notification → Notification
marked n = record n { notified = true }

-- the loop of `tenant_check_notification`
pub report : ℕ → ℕ → Heap Notification → Ends → Ptr → ℕ → Option (List Issue × Heap Notification)
report zero fuel h self n now = none
report (suc rounds) fuel h self n now =
    let rest = (do
      c ← load h n
      h' ← set_item h n (marked c.item)
      n' ← find_overdue fuel h' self n now
      (issues, h'') ← report rounds fuel h' self n' now
      some (issue c.item ∷ issues, h'')) in
    if n == null then some ([], h) else rest

-- `tenant_check_notification`: the dictionary "issues", in the order of its keys' insertion
pub check_notification :
    ℕ → Heap Notification → Ends → ℕ → Option (Option (List Issue) × Heap Notification)
check_notification fuel h self now = do
  actionable ← check_actionable fuel h self now
  if actionable
      then (do
        n ← find_overdue fuel h self null now
        (issues, h') ← report fuel fuel h self n now
        some (some issues, h'))
      else some (none, h)
