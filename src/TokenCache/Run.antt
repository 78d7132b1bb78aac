-- ===== src/TokenCache/Run.antt =====
-- What the operations of the token cache keep.
use opticon.Uuid.{Uuid}
use opticon.Prelude.{
  ℕ, suc, ◌+◌, ◌-◌, ◌%◌, ◌≤◌, ◌≡◌, refl, sym, ◌∙◌, subst, Option, none, some, List, [], ◌∷◌, length,
  drop, set, Each, Each-set, Each-replicate, Each-drop-set, length-set, length-replicate, drop_all,
  arith, ltb, inl, inr, Bool-cases,
}
use opticon.Hash.{hash_token}
use opticon.TokenCache.{
  answer, TcacheNode, TokenCache, AuthLevel, auth_guest, cleared, init, expire, lookup,
  store_invalid, store_valid, valid_slot, entry, Event, looked_up, expired, invalid, valid, step,
  run, find_invalid, find_valid, reap, drop_hash, each_of, token_timeout_invalid,
  token_timeout_valid, find_slot, slot_or,
}
use opticon.TokenCache.Loops.{
  IsKept, find_invalid-Each, reap-kept, drop_hash-kept, each_of-Each, length-each_of, drop-each_of,
  length-find_invalid, find_valid-shape,
}
use opticon.TokenCache.Slots.{valid_slot_lem}

abbrev pub IsFree : TcacheNode → Type 0
IsFree c = c.hashcode ≡ 0

abbrev pub IsGuest : TcacheNode → Type 0
IsGuest c = c.userlevel ≡ auth_guest

-- Both arrays keep their size, `count` is at most that of the first, the nodes past it are free, and
-- the negative results are those of a guest.
pub record IsCache (c : TokenCache) : Type 0 where
  pub all_nodes : length c.nodes ≡ 256
  pub all_invalids : length c.invalids ≡ 16
  pub counted : c.count ≤ 256
  pub rest_free : Each IsFree (drop c.count c.nodes)
  pub guests : Each IsGuest c.invalids

pub guests_kept : IsKept IsGuest
guests_kept = record { of_cleared = refl; of_touched = λ t c p. p }

pub init-IsCache : (tnow : ℕ) → IsCache (init tnow)
unfolding init
init-IsCache tnow = record {
  all_nodes = length-replicate 256 cleared;
  all_invalids = length-replicate 16 cleared;
  counted = omega arith;
  rest_free = Each-replicate IsFree 256 cleared refl;
  guests = Each-replicate IsGuest 16 cleared refl;
}

pub expire-IsCache : (tnow : ℕ) (c : TokenCache) → IsCache c → IsCache (expire tnow c)
unfolding expire
expire-IsCache tnow c v = elim (Bool-cases (ltb (tnow - c.last_expire) 60)) [
  | inl e ↦ rw e v
  | inr e ↦
      let reap_invalid = reap token_timeout_invalid tnow in
      let reap_valid = reap token_timeout_valid tnow in
      let out : IsCache (record c {
        invalids = each_of reap_invalid 16 c.invalids;
        nodes = each_of reap_valid c.count c.nodes;
        last_expire = tnow;
      }) =
        record {
          all_nodes = length-each_of reap_valid c.count c.nodes ∙ v.all_nodes;
          all_invalids = length-each_of reap_invalid 16 c.invalids ∙ v.all_invalids;
          counted = v.counted;
          rest_free =
              subst (Each IsFree) (sym (drop-each_of reap_valid c.count c.nodes)) v.rest_free;
          guests =
              each_of-Each reap_invalid (reap-kept guests_kept token_timeout_invalid tnow) 16
                c.invalids v.guests;
        } in
      rw e out
]

-- the cache with the two arrays of a lookup
found-IsCache :
    (hash : ℕ) (token : List ℕ) (tnow : ℕ) (c : TokenCache)
    → IsCache c
    → IsCache (record c { invalids = (find_invalid hash token tnow c.invalids).1 })
      × IsCache (record c {
        invalids = (find_invalid hash token tnow c.invalids).1;
        nodes = (find_valid hash token tnow c.count c.nodes).1;
      })
found-IsCache hash token tnow c v =
    let (same_length, same_rest) = find_valid-shape hash token tnow c.count c.nodes in
    let bad = length-find_invalid hash token tnow c.invalids ∙ v.all_invalids in
    let guests = find_invalid-Each guests_kept hash token tnow c.invalids v.guests in
    (
      record {
        all_nodes = v.all_nodes;
        all_invalids = bad;
        counted = v.counted;
        rest_free = v.rest_free;
        guests = guests;
      },
      record {
        all_nodes = same_length ∙ v.all_nodes;
        all_invalids = bad;
        counted = v.counted;
        rest_free = subst (Each IsFree) (sym same_rest) v.rest_free;
        guests = guests;
      },
    )

answer-IsCache :
    (later : ℕ) (bad good : Option TcacheNode) (first both : TokenCache)
    → IsCache first
    → IsCache both
    → IsCache (answer later bad good first both).1
unfolding answer
answer-IsCache later (some res) good first both v w = expire-IsCache later first v
answer-IsCache later none (some res) first both v w = expire-IsCache later both w
answer-IsCache later none none first both v w = w

pub lookup-IsCache :
    (seed : ℕ) (token : List ℕ) (tnow later : ℕ) (c : TokenCache)
    → IsCache c
    → IsCache (lookup seed token tnow later c).1
unfolding lookup
lookup-IsCache seed token tnow later c v =
    let hash = hash_token seed token in
    let (first, both) = found-IsCache hash token tnow c v in
    answer-IsCache later (find_invalid hash token tnow c.invalids).0
      (find_valid hash token tnow c.count c.nodes).0 _ _ first both

pub store_invalid-IsCache :
    (seed : ℕ) (token : List ℕ) (tnow pick : ℕ) (c : TokenCache)
    → IsCache c
    → IsCache (store_invalid seed token tnow pick c)
unfolding store_invalid
store_invalid-IsCache seed token tnow pick c v =
    let into = slot_or (pick % 16) (find_slot token_timeout_invalid tnow 0 none tnow c.invalids) in
    let written = entry seed token [] auth_guest tnow in
    let body = drop_hash (hash_token seed token) in
    record {
      all_nodes = length-each_of body c.count c.nodes ∙ v.all_nodes;
      all_invalids = length-set c.invalids into written ∙ v.all_invalids;
      counted = v.counted;
      rest_free = subst (Each IsFree) (sym (drop-each_of body c.count c.nodes)) v.rest_free;
      guests = Each-set IsGuest c.invalids into written refl v.guests;
    }

pub store_valid-IsCache :
    (seed : ℕ) (token : List ℕ) (tenantlist : List Uuid) (userlevel : AuthLevel) (tnow pick : ℕ)
    (c : TokenCache)
    → IsCache c
    → IsCache (store_valid seed token tenantlist userlevel tnow pick c)
unfolding store_valid
store_valid-IsCache seed token tenantlist userlevel tnow pick c v =
    let (into, count) = valid_slot tnow pick c in
    let written = entry seed token tenantlist userlevel tnow in
    let body = drop_hash (hash_token seed token) in
    let (low, fits, which) = valid_slot_lem tnow pick c v.all_nodes v.counted in
    record {
      all_nodes = length-set c.nodes into written ∙ v.all_nodes;
      all_invalids = length-each_of body 16 c.invalids ∙ v.all_invalids;
      counted = fits;
      rest_free = elim which [
        | inl (e, room) ↦
            let next : suc c.count ≡ c.count + 1 = omega arith in
            let free : Each IsFree (drop (c.count + 1) (set c.nodes c.count written)) =
              rw (← next) (Each-drop-set IsFree c.count c.nodes written v.rest_free) in
            subst (λ p. Each IsFree (drop p.1 (set c.nodes p.0 written))) (sym e) free
        | inr e ↦
            let gone : drop count (set c.nodes into written) ≡ [] =
              drop_all count (set c.nodes into written)
                (omega (arith, length-set c.nodes into written, v.all_nodes)) in
            subst (Each IsFree) (sym gone) tt
      ];
      guests =
          each_of-Each body (drop_hash-kept guests_kept (hash_token seed token)) 16 c.invalids
            v.guests;
    }

pub step-IsCache : (seed : ℕ) (c : TokenCache) (e : Event) → IsCache c → IsCache (step seed c e)
unfolding step
step-IsCache seed c (looked_up token tnow later) v = lookup-IsCache seed token tnow later c v
step-IsCache seed c (expired tnow) v = expire-IsCache tnow c v
step-IsCache seed c (invalid token tnow pick) v = store_invalid-IsCache seed token tnow pick c v
step-IsCache seed c (valid token tenantlist userlevel tnow pick) v =
    store_valid-IsCache seed token tenantlist userlevel tnow pick c v

pub steps-IsCache :
    (seed : ℕ) (c : TokenCache) (es : List Event) → IsCache c → IsCache (run seed c es)
unfolding run
steps-IsCache seed c [] v = v
steps-IsCache seed c (e ∷ es) v = steps-IsCache seed (step seed c e) es (step-IsCache seed c e v)

-- After any sequence of lookups, expiry rounds and stores on a cache that was initialised, the
-- arrays have 256 and 16 nodes, `count` is at most 256, every node from `count` on is free, and
-- every node of the negative results has the level of a guest.
pub run-IsCache : (seed tnow : ℕ) (es : List Event) → IsCache (run seed (init tnow) es)
run-IsCache seed tnow es = steps-IsCache seed (init tnow) es (init-IsCache tnow)
