-- ===== src/TokenCache/Revoked.antt =====
-- A token that was found invalid stays so until it is stored as valid.
use opticon.Prelude.{
  get_or, ap₂, ℕ, zero, suc, ◌-◌, ◌<◌, ◌≡◌, ◌≢◌, sym, ap, Option, none, some, List, [], ◌∷◌, length,
  drop, take, Each, Each-set, arith, ltb, ◌==◌, inl, inr, Bool-cases, and-eq-true,
}
use opticon.Prelude.Text.{same, same-eq}
use opticon.Uuid.{Uuid}
use opticon.Hash.{hash_token}
use opticon.TokenCache.{
  TcacheNode, TokenCache, AuthLevel, auth_guest, touched, holds, is_fresh, lookup, store_invalid,
  store_valid, answer, valid_slot, entry, Event, looked_up, expired, invalid, valid, step, run,
  find_invalid, find_valid, reap, drop_hash, token_timeout_invalid, token_timeout_valid, expire,
}
use opticon.TokenCache.Loops.{
  find_valid-Each, reap-kept, drop_hash-kept, each_of-Each, each_of-makes,
}
use opticon.TokenCache.Run.{IsCache, IsGuest, steps-IsCache, store_invalid-IsCache}
use opticon.TokenCache.Store.{
  Lacks, Lacks-IsKept, drop_hash-Lacks, Each-IsFree-Lacks, find_valid-none,
}

-- no valid entry for the token
abbrev IsClean : ℕ → List ℕ → TokenCache → Type 0
IsClean seed token c = Each (Lacks seed token) c.nodes

-- what an event stores as valid
abbrev pub Spares : List ℕ → Event → Type 0
Spares token (looked_up _ _ _) = Unit
Spares token (expired _) = Unit
Spares token (invalid _ _ _) = Unit
Spares token (valid other _ _ _ _) = other ≢ token

expire-IsClean :
    (seed : ℕ) (token : List ℕ) (tnow : ℕ) (c : TokenCache)
    → IsClean seed token c
    → IsClean seed token (expire tnow c)
unfolding expire
expire-IsClean seed token tnow c clean = elim (Bool-cases (ltb (tnow - c.last_expire) 60)) [
  | inl e ↦ rw e clean
  | inr e ↦ rw e (
      each_of-Each (reap token_timeout_valid tnow)
        (reap-kept (Lacks-IsKept seed token) token_timeout_valid tnow) c.count c.nodes clean)
]

answer-IsClean :
    (seed : ℕ) (token : List ℕ) (later : ℕ) (bad good : Option TcacheNode) (first both : TokenCache)
    → IsClean seed token first
    → IsClean seed token both
    → IsClean seed token (answer later bad good first both).1
unfolding answer
answer-IsClean seed token later (some res) good first both v w =
    expire-IsClean seed token later first v
answer-IsClean seed token later none (some res) first both v w =
    expire-IsClean seed token later both w
answer-IsClean seed token later none none first both v w = w

-- A text that is cut at 1023 characters is no shorter text.
take-ne : (n : ℕ) (other token : List ℕ) → length token < n → other ≢ token → take n other ≢ token
take-ne zero other token short ne e = absurd (omega arith)
take-ne (suc n) [] token short ne e = ne e
take-ne (suc n) (x ∷ xs) [] short ne e = cc
take-ne (suc n) (x ∷ xs) (y ∷ ys) short ne e =
    take-ne n xs ys (omega arith) (λ f. ne (ap₂ (λ a b. a ∷ b) (ap (λ l. get_or l 0 x) e) f))
      (ap (λ l. drop 1 l) e)

entry-Lacks :
    (seed : ℕ) (token other : List ℕ) (tenantlist : List Uuid) (userlevel : AuthLevel) (tnow : ℕ)
    → length token < 1023
    → other ≢ token
    → Lacks seed token (entry seed other tenantlist userlevel tnow)
entry-Lacks seed token other tenantlist userlevel tnow short ne =
    elim (Bool-cases
      (holds (hash_token seed token) token (entry seed other tenantlist userlevel tnow))) [
        | inr e ↦ e
        | inl e ↦
            let (_, k) =
              and-eq-true (hash_token seed other == hash_token seed token)
                (same token (take 1023 other)) e in
            absurd (take-ne 1023 other token short ne (sym (same-eq token (take 1023 other) k)))
      ]

step-IsClean :
    (seed : ℕ) (token : List ℕ) (c : TokenCache) (e : Event)
    → length token < 1023
    → Spares token e
    → IsClean seed token c
    → IsClean seed token (step seed c e)
unfolding step lookup store_invalid store_valid
step-IsClean seed token c (looked_up other tnow later) short h clean =
    let hash = hash_token seed other in
    answer-IsClean seed token later (find_invalid hash other tnow c.invalids).0
      (find_valid hash other tnow c.count c.nodes).0 _ _ clean
      (find_valid-Each (Lacks-IsKept seed token) hash other tnow c.count c.nodes clean)
step-IsClean seed token c (expired tnow) short h clean = expire-IsClean seed token tnow c clean
step-IsClean seed token c (invalid other tnow pick) short h clean =
    each_of-Each (drop_hash (hash_token seed other))
      (drop_hash-kept (Lacks-IsKept seed token) (hash_token seed other)) c.count c.nodes clean
step-IsClean seed token c (valid other tenantlist userlevel tnow pick) short h clean =
    Each-set (Lacks seed token) c.nodes (valid_slot tnow pick c).0
      (entry seed other tenantlist userlevel tnow)
      (entry-Lacks seed token other tenantlist userlevel tnow short h) clean

steps-IsClean :
    (seed : ℕ) (token : List ℕ) (c : TokenCache) (es : List Event)
    → length token < 1023
    → Each (Spares token) es
    → IsClean seed token c
    → IsClean seed token (run seed c es)
unfolding run
steps-IsClean seed token c [] short h clean = clean
steps-IsClean seed token c (e ∷ es) short (p, h) clean =
    steps-IsClean seed token (step seed c e) es short h (step-IsClean seed token c e short p clean)

find_invalid-guest :
    (hash : ℕ) (token : List ℕ) (tnow : ℕ) (cs : List TcacheNode) (res : TcacheNode)
    → Each IsGuest cs
    → (find_invalid hash token tnow cs).0 ≡ some res
    → res.userlevel ≡ auth_guest
unfolding find_invalid
find_invalid-guest hash token tnow [] res all h = cc
find_invalid-guest hash token tnow (c ∷ cs) res (p, all) h =
    elim (Bool-cases (holds hash token c)) [
      | inl e ↦ elim (Bool-cases (is_fresh token_timeout_invalid tnow c)) [
        | inl f ↦ let h' : some (touched tnow c) ≡ some res = rw (e, f) at h in cc (p, h')
        | inr f ↦
            let h' : ◌≡◌ {A = Option TcacheNode} none (some res) = rw (e, f) at h in absurd (cc)
      ]
      | inr e ↦ find_invalid-guest hash token tnow cs res all (rw e at h)
    ]

-- After `store_invalid` of a token shorter than 1023 characters in a cache that keeps its invariant,
-- along any sequence of operations in which that token is not stored as valid, what a lookup of it
-- answers, if it answers, has the level of a guest.
pub store_invalid-revokes :
    (seed : ℕ) (token : List ℕ) (tnow pick : ℕ) (es : List Event) (t later : ℕ) (c : TokenCache)
    (res : TcacheNode)
    → IsCache c
    → length token < 1023
    → Each (Spares token) es
    → (lookup seed token t later (run seed (store_invalid seed token tnow pick c) es)).0 ≡ some res
    → res.userlevel ≡ auth_guest
unfolding lookup store_invalid answer
store_invalid-revokes seed token tnow pick es t later c res v short h found =
    let start = store_invalid seed token tnow pick c in
    let end = run seed start es in
    let w = steps-IsCache seed start es (store_invalid-IsCache seed token tnow pick c v) in
    let clean = steps-IsClean seed token start es short h (start-IsClean v) in
    from_bad later (find_invalid (hash_token seed token) token t end.invalids).0
      (find_valid (hash_token seed token) token t end.count end.nodes).0 _ _
      (find_valid-none seed token t end.count end.nodes clean) found
      (λ e. find_invalid-guest (hash_token seed token) token t end.invalids res w.guests e)
  where
    start-IsClean : IsCache c → IsClean seed token (store_invalid seed token tnow pick c)
    start-IsClean v =
        each_of-makes (Lacks seed token) (drop_hash (hash_token seed token))
          (drop_hash-Lacks seed token) c.count c.nodes
          (Each-IsFree-Lacks seed token (drop c.count c.nodes) v.rest_free)

    from_bad :
        (later : ℕ) (bad good : Option TcacheNode) (first both : TokenCache)
        → good ≡ none
        → (answer later bad good first both).0 ≡ some res
        → (bad ≡ some res → res.userlevel ≡ auth_guest)
        → res.userlevel ≡ auth_guest
    from_bad later (some r) good first both e f k = k f
    from_bad later none good first both e f k =
        let f' : ◌≡◌ {A = Option TcacheNode} none (some res) = rw e at f in absurd (cc)
