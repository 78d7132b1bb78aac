-- ===== src/TokenCache.antt =====
-- src/opticon-api/tokencache.c: the cache of the API of valid and invalid tokens. A token is its
-- text before the NUL; the lock makes each operation a step, which takes the time of its call to
-- `time`. `seed` is that of `hash_token`, and `pick` the random slot of a full cache.
mod Loops
mod Run
mod Slots
mod Store
mod Revoked
mod Tests
use opticon.Prelude.{
  ℕ, zero, suc, ◌+◌, ◌-◌, ◌%◌, Bool, Option, none, some, List, [], ◌∷◌, ltb, leb, ◌==◌,
  if◌then◌else◌, ◌&&◌, ◌||◌, get_or, set, take, replicate,
}
use opticon.Prelude.Text.{same}
use opticon.Uuid.{Uuid}
use opticon.Hash.{hash_token}

-- `auth_level`
pub data AuthLevel : Type 0 where
  auth_guest auth_user auth_prov auth_admin : AuthLevel

abbrev pub token_timeout_valid : ℕ
token_timeout_valid = 1800

abbrev pub token_timeout_invalid : ℕ
token_timeout_invalid = 60

-- `tcache_node`; the list of tenants with its length
pub record TcacheNode : Type 0 where
  pub token : List ℕ
  pub hashcode : ℕ
  pub lastref : ℕ
  pub ctime : ℕ
  pub tenantlist : List Uuid
  pub userlevel : AuthLevel

pub record TokenCache : Type 0 where
  pub nodes : List TcacheNode
  pub invalids : List TcacheNode
  pub count : ℕ
  pub last_expire : ℕ

-- what `tcache_node_clear` leaves
abbrev pub cleared : TcacheNode
cleared = record {
  token = [];
  hashcode = 0;
  lastref = 0;
  ctime = 0;
  tenantlist = [];
  userlevel = auth_guest;
}

pub init : ℕ → TokenCache
init tnow = record {
  nodes = replicate 256 cleared;
  invalids = replicate 16 cleared;
  count = 0;
  last_expire = tnow;
}

abbrev pub is_fresh : ℕ → ℕ → TcacheNode → Bool
is_fresh timeout tnow crsr = ltb tnow (crsr.ctime + timeout)

abbrev pub holds : ℕ → List ℕ → TcacheNode → Bool
holds hash token crsr = (crsr.hashcode == hash) && same token crsr.token

abbrev pub touched : ℕ → TcacheNode → TcacheNode
touched tnow crsr = record crsr { lastref = tnow }

-- The loop of the lookup over the invalid tokens: the answer, and what the nodes become.
pub find_invalid :
    (hash : ℕ) (token : List ℕ) (tnow : ℕ) → List TcacheNode → Option TcacheNode × List TcacheNode
find_invalid hash token tnow [] = (none, [])
find_invalid hash token tnow (crsr ∷ cs) =
    let (res, cs') = find_invalid hash token tnow cs in
    if holds hash token crsr
    then if is_fresh token_timeout_invalid tnow crsr
      then (some (touched tnow crsr), touched tnow crsr ∷ cs)
      else (none, crsr ∷ cs)
    else (res, crsr ∷ cs')

-- The loop over the first `count` valid ones; an entry that is too old is cleared.
pub find_valid :
    (hash : ℕ) (token : List ℕ) (tnow : ℕ) (count : ℕ)
    → List TcacheNode
    → Option TcacheNode × List TcacheNode
find_valid hash token tnow zero cs = (none, cs)
find_valid hash token tnow (suc count) [] = (none, [])
find_valid hash token tnow (suc count) (crsr ∷ cs) =
    let (res, cs') = find_valid hash token tnow count cs in
    if holds hash token crsr
    then if is_fresh token_timeout_valid tnow crsr
      then (some (touched tnow crsr), touched tnow crsr ∷ cs)
      else (none, cleared ∷ cs)
    else (res, crsr ∷ cs')

abbrev pub reap : ℕ → ℕ → TcacheNode → TcacheNode
reap timeout tnow crsr = if leb (crsr.ctime + timeout) tnow then cleared else crsr

-- a loop over the first `count` nodes
pub each_of : (TcacheNode → TcacheNode) → ℕ → List TcacheNode → List TcacheNode
each_of body zero cs = cs
each_of body (suc count) [] = []
each_of body (suc count) (crsr ∷ cs) = body crsr ∷ each_of body count cs

-- A clock that has gone back leaves the cache alone too.
pub expire : ℕ → TokenCache → TokenCache
expire tnow c = if ltb (tnow - c.last_expire) 60 then c else record c {
  invalids = each_of (reap token_timeout_invalid tnow) 16 c.invalids;
  nodes = each_of (reap token_timeout_valid tnow) c.count c.nodes;
  last_expire = tnow;
}

-- The end of a lookup, with the cache after the first loop and after both. The round of `expire`
-- reads the clock again, at `later`.
pub answer :
    (later : ℕ) (bad good : Option TcacheNode)
    → TokenCache
    → TokenCache
    → Option TcacheNode × TokenCache
answer later (some res) good first both = (some res, expire later first)
answer later none (some res) first both = (some res, expire later both)
answer later none none first both = (none, both)

-- `tokencache_lookup`
pub lookup : ℕ → List ℕ → ℕ → ℕ → TokenCache → Option TcacheNode × TokenCache
lookup seed token tnow later c =
    let hash = hash_token seed token in
    let (bad, invalids) = find_invalid hash token tnow c.invalids in
    let (good, nodes) = find_valid hash token tnow c.count c.nodes in
    answer later bad good (record c { invalids = invalids })
      (record c { invalids = invalids; nodes = nodes })

-- The slot to write to: the first that is free or too old, else the one not used for longest.
pub find_slot : (timeout tnow : ℕ) → ℕ → Option ℕ → ℕ → List TcacheNode → Option ℕ
find_slot timeout tnow i into oldest [] = into
find_slot timeout tnow i into oldest (crsr ∷ cs) =
    let older = ltb crsr.lastref oldest in
    let rest =
      find_slot timeout tnow (i + 1) (if older then some i else into)
        (if older then crsr.lastref else oldest) cs in
    if (crsr.hashcode == 0) || leb (crsr.ctime + timeout) tnow then some i else rest

abbrev pub slot_or : ℕ → Option ℕ → ℕ
slot_or pick none = pick
slot_or pick (some i) = i

-- what is written to the slot; `strncpy` copies 1023 characters
abbrev pub entry : ℕ → List ℕ → List Uuid → AuthLevel → ℕ → TcacheNode
entry seed token tenantlist userlevel tnow = record {
  token = take 1023 token;
  hashcode = hash_token seed token;
  lastref = tnow;
  ctime = tnow;
  tenantlist = tenantlist;
  userlevel = userlevel;
}

abbrev pub drop_hash : ℕ → TcacheNode → TcacheNode
drop_hash hash crsr = if crsr.hashcode == hash then cleared else crsr

pub store_invalid : ℕ → List ℕ → ℕ → ℕ → TokenCache → TokenCache
store_invalid seed token tnow pick c =
    let into = slot_or (pick % 16) (find_slot token_timeout_invalid tnow 0 none tnow c.invalids) in
    record c {
      invalids = set c.invalids into (entry seed token [] auth_guest tnow);
      nodes = each_of (drop_hash (hash_token seed token)) c.count c.nodes;
    }

-- the slot that `store_valid` takes, and the count after it
abbrev pub valid_slot : ℕ → ℕ → TokenCache → ℕ × ℕ
valid_slot tnow pick c =
    if ltb c.count 256
    then (c.count, c.count + 1)
    else (slot_or (pick % 256) (find_slot token_timeout_valid tnow 0 none tnow c.nodes), c.count)

pub store_valid : ℕ → List ℕ → List Uuid → AuthLevel → ℕ → ℕ → TokenCache → TokenCache
store_valid seed token tenantlist userlevel tnow pick c =
    let (into, count) = valid_slot tnow pick c in
    record c {
      nodes = set c.nodes into (entry seed token tenantlist userlevel tnow);
      count = count;
      invalids = each_of (drop_hash (hash_token seed token)) 16 c.invalids;
    }

-- the operations in the order of their locks
pub data Event : Type 0 where
  looked_up : List ℕ → ℕ → ℕ → Event
  expired : ℕ → Event
  invalid : List ℕ → ℕ → ℕ → Event
  valid : List ℕ → List Uuid → AuthLevel → ℕ → ℕ → Event

pub step : ℕ → TokenCache → Event → TokenCache
step seed c (looked_up token tnow later) = (lookup seed token tnow later c).1
step seed c (expired tnow) = expire tnow c
step seed c (invalid token tnow pick) = store_invalid seed token tnow pick c
step seed c (valid token tenantlist userlevel tnow pick) =
    store_valid seed token tenantlist userlevel tnow pick c

pub run : ℕ → TokenCache → List Event → TokenCache
run seed c [] = c
run seed c (e ∷ es) = run seed (step seed c e) es
