-- ===== src/TokenCache/Store.antt =====
-- What a lookup answers after a store.
use opticon.Prelude.{
  take_short, ℕ, zero, suc, ◌+◌, ◌<◌, ◌≤◌, ◌≡◌, refl, sym, ap, subst, Option, none, some, List, [],
  ◌∷◌, ◌&&◌, length, drop, set, Each, arith, ◌==◌, inl, inr, Bool-cases, true, false, drop_all,
  lt→ltb,
}
use opticon.Prelude.Text.{same, same_self}
use opticon.Uuid.{Uuid}
use opticon.Hash.{hash_token}
use opticon.Hash.Bounds.{hash_token_bounds}
use opticon.TokenCache.{
  TcacheNode, TokenCache, AuthLevel, cleared, touched, holds, is_fresh, lookup, store_valid, answer,
  valid_slot, entry, find_invalid, find_valid, drop_hash, each_of, token_timeout_valid,
}
use opticon.TokenCache.Loops.{IsKept, each_of-makes}
use opticon.TokenCache.Slots.{valid_slot_lem}
use opticon.TokenCache.Run.{IsCache, IsFree}

-- no entry for the token
abbrev pub Lacks : ℕ → List ℕ → TcacheNode → Type 0
Lacks seed token c = holds (hash_token seed token) token c ≡ false

pub IsFree-Lacks : (seed : ℕ) (token : List ℕ) (c : TcacheNode) → IsFree c → Lacks seed token c
IsFree-Lacks seed token c free =
    let pos = (hash_token_bounds seed token).0 in
    let off : (c.hashcode == hash_token seed token) ≡ false = ground (arith, pos, free) in
    ap (λ b. b && same token c.token) off

pub Lacks-IsKept : (seed : ℕ) (token : List ℕ) → IsKept (Lacks seed token)
Lacks-IsKept seed token = record {
  of_cleared = IsFree-Lacks seed token cleared refl;
  of_touched = λ t c p. p;
}

pub drop_hash-Lacks :
    (seed : ℕ) (token : List ℕ) (c : TcacheNode)
    → Lacks seed token (drop_hash (hash_token seed token) c)
drop_hash-Lacks seed token c = elim (Bool-cases (c.hashcode == hash_token seed token)) [
  | inl e ↦ rw e (IsFree-Lacks seed token cleared refl)
  | inr e ↦ rw (e, e) refl
]

pub Each-IsFree-Lacks :
    (seed : ℕ) (token : List ℕ) (cs : List TcacheNode) → Each IsFree cs → Each (Lacks seed token) cs
Each-IsFree-Lacks seed token [] all = tt
Each-IsFree-Lacks seed token (c ∷ cs) (p, all) =
    (IsFree-Lacks seed token c p, Each-IsFree-Lacks seed token cs all)

find_invalid-none :
    (seed : ℕ) (token : List ℕ) (tnow : ℕ) (cs : List TcacheNode)
    → Each (Lacks seed token) cs
    → (find_invalid (hash_token seed token) token tnow cs).0 ≡ none
unfolding find_invalid
find_invalid-none seed token tnow [] all = refl
find_invalid-none seed token tnow (c ∷ cs) (p, all) =
    rw p (find_invalid-none seed token tnow cs all)

pub find_valid-none :
    (seed : ℕ) (token : List ℕ) (tnow count : ℕ) (cs : List TcacheNode)
    → Each (Lacks seed token) cs
    → (find_valid (hash_token seed token) token tnow count cs).0 ≡ none
unfolding find_valid
find_valid-none seed token tnow zero cs all = refl
find_valid-none seed token tnow (suc count) [] all = refl
find_valid-none seed token tnow (suc count) (c ∷ cs) (p, all) =
    rw p (find_valid-none seed token tnow count cs all)

find_valid-set :
    (seed : ℕ) (token : List ℕ) (tnow count : ℕ) (cs : List TcacheNode) (i : ℕ) (e : TcacheNode)
    → Each (Lacks seed token) cs
    → i < count
    → i < length cs
    → holds (hash_token seed token) token e ≡ true
    → is_fresh token_timeout_valid tnow e ≡ true
    → (find_valid (hash_token seed token) token tnow count (set cs i e)).0 ≡ some (touched tnow e)
unfolding find_valid
find_valid-set seed token tnow zero cs i e all low fits mine fresh = absurd (omega arith)
find_valid-set seed token tnow (suc count) [] i e all low fits mine fresh = absurd (omega arith)
find_valid-set seed token tnow (suc count) (c ∷ cs) zero e all low fits mine fresh =
    rw (mine, fresh) refl
find_valid-set seed token tnow (suc count) (c ∷ cs) (suc i) e (p, all) low fits mine fresh =
    rw p (find_valid-set seed token tnow count cs i e all (omega arith) (omega arith) mine fresh)

entry-holds :
    (seed : ℕ) (token : List ℕ) (tenantlist : List Uuid) (userlevel : AuthLevel) (tnow : ℕ)
    → length token ≤ 1023
    → holds (hash_token seed token) token (entry seed token tenantlist userlevel tnow) ≡ true
entry-holds seed token tenantlist userlevel tnow short =
    let self : (hash_token seed token == hash_token seed token) ≡ true = ground arith in
    rw (self, take_short 1023 token short) (same_self token)

-- After `store_valid` of a token of at most 1023 characters in a cache that keeps its invariant and
-- has no entry for the token among the valid ones, a lookup within 1800 seconds answers with the
-- tenants and the level that were stored, whatever the negative results said before.
pub lookup-store_valid :
    (seed : ℕ) (token : List ℕ) (tenantlist : List Uuid) (userlevel : AuthLevel)
    (tnow pick t later : ℕ) (c : TokenCache)
    → IsCache c
    → length token ≤ 1023
    → Each (Lacks seed token) c.nodes
    → t < tnow + 1800
    → (lookup seed token t later (store_valid seed token tenantlist userlevel tnow pick c)).0
      ≡ some (touched t (entry seed token tenantlist userlevel tnow))
unfolding lookup store_valid answer
lookup-store_valid seed token tenantlist userlevel tnow pick t later c v short absent soon =
    let hash = hash_token seed token in
    let (into, count) = valid_slot tnow pick c in
    let (low, fits, which) = valid_slot_lem tnow pick c v.all_nodes v.counted in
    let e = entry seed token tenantlist userlevel tnow in
    let rest : drop 16 c.invalids ≡ [] = drop_all 16 c.invalids (omega (arith, v.all_invalids)) in
    let bad = find_invalid-none seed token t (each_of (drop_hash hash) 16 c.invalids) (
      each_of-makes (Lacks seed token) (drop_hash hash) (drop_hash-Lacks seed token) 16 c.invalids
        (subst (Each (Lacks seed token)) (sym rest) tt)) in
    let good =
      find_valid-set seed token t count c.nodes into e absent low (omega (arith, v.all_nodes))
        (entry-holds seed token tenantlist userlevel tnow short) (lt→ltb t (tnow + 1800) soon) in
    answer_good later _ _ _ _ _ bad good
  where
    answer_good :
        (later : ℕ) (bad good : Option TcacheNode) (res : TcacheNode) (first both : TokenCache)
        → bad ≡ none
        → good ≡ some res
        → (answer later bad good first both).0 ≡ some res
    answer_good later bad good res first both e f = rw (e, f) refl
