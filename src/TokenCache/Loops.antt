-- ===== src/TokenCache/Loops.antt =====
-- What the loops over the nodes keep.
use opticon.Prelude.{
  ◌+◌, ℕ, zero, suc, ◌≡◌, refl, ap, List, [], ◌∷◌, inl, inr, Bool-cases, length, drop, Each, ◌==◌,
  leb,
}
use opticon.TokenCache.{
  TcacheNode, cleared, touched, holds, is_fresh, find_invalid, find_valid, each_of, reap, drop_hash,
  token_timeout_invalid, token_timeout_valid,
}

-- A predicate that the operations keep: use and clearing do not break it.
pub record IsKept {κ} (P : TcacheNode → Type κ) : Type κ where
  pub of_cleared : P cleared
  pub of_touched : (tnow : ℕ) (c : TcacheNode) → P c → P (touched tnow c)

module _ {κ} {P : TcacheNode → Type κ} (kept : IsKept P) where
  pub find_invalid-Each :
      (hash : ℕ) (token : List ℕ) (tnow : ℕ) (cs : List TcacheNode)
      → Each P cs
      → Each P (find_invalid hash token tnow cs).1
  unfolding find_invalid
  find_invalid-Each hash token tnow [] all = tt
  find_invalid-Each hash token tnow (c ∷ cs) (p, all) = elim (Bool-cases (holds hash token c)) [
    | inl e ↦ elim (Bool-cases (is_fresh token_timeout_invalid tnow c)) [
      | inl f ↦ rw (e, f) ((kept.of_touched tnow c p, all))
      | inr f ↦ rw (e, f) ((p, all))
    ]
    | inr e ↦ rw e ((p, find_invalid-Each hash token tnow cs all))
  ]

  pub find_valid-Each :
      (hash : ℕ) (token : List ℕ) (tnow count : ℕ) (cs : List TcacheNode)
      → Each P cs
      → Each P (find_valid hash token tnow count cs).1
  unfolding find_valid
  find_valid-Each hash token tnow zero cs all = all
  find_valid-Each hash token tnow (suc count) [] all = tt
  find_valid-Each hash token tnow (suc count) (c ∷ cs) (p, all) =
      elim (Bool-cases (holds hash token c)) [
        | inl e ↦ elim (Bool-cases (is_fresh token_timeout_valid tnow c)) [
          | inl f ↦ rw (e, f) ((kept.of_touched tnow c p, all))
          | inr f ↦ rw (e, f) ((kept.of_cleared, all))
        ]
        | inr e ↦ rw e ((p, find_valid-Each hash token tnow count cs all))
      ]

  pub reap-kept : (timeout tnow : ℕ) (c : TcacheNode) → P c → P (reap timeout tnow c)
  reap-kept timeout tnow c p = elim (Bool-cases (leb (c.ctime + timeout) tnow)) [
    | inl e ↦ rw e kept.of_cleared
    | inr e ↦ rw e p
  ]

  pub drop_hash-kept : (hash : ℕ) (c : TcacheNode) → P c → P (drop_hash hash c)
  drop_hash-kept hash c p = elim (Bool-cases (c.hashcode == hash)) [
    | inl e ↦ rw e kept.of_cleared
    | inr e ↦ rw e p
  ]

pub each_of-Each {κ} :
    {P : TcacheNode → Type κ} (body : TcacheNode → TcacheNode)
    → ((c : TcacheNode) → P c → P (body c))
    → (count : ℕ) (cs : List TcacheNode) → Each P cs
    → Each P (each_of body count cs)
unfolding each_of
each_of-Each body keep zero cs all = all
each_of-Each body keep (suc count) [] all = tt
each_of-Each body keep (suc count) (c ∷ cs) (p, all) =
    (keep c p, each_of-Each body keep count cs all)

-- What a body makes true of a node holds of all after the loop, the rest given.
pub each_of-makes {κ} :
    (P : TcacheNode → Type κ) (body : TcacheNode → TcacheNode)
    → ((c : TcacheNode) → P (body c))
    → (count : ℕ) (cs : List TcacheNode) → Each P (drop count cs)
    → Each P (each_of body count cs)
unfolding each_of
each_of-makes P body make zero cs all = all
each_of-makes P body make (suc count) [] all = tt
each_of-makes P body make (suc count) (c ∷ cs) all =
    (make c, each_of-makes P body make count cs all)

pub length-each_of :
    (body : TcacheNode → TcacheNode) (count : ℕ) (cs : List TcacheNode)
    → length (each_of body count cs) ≡ length cs
unfolding each_of
length-each_of body zero cs = refl
length-each_of body (suc count) [] = refl
length-each_of body (suc count) (c ∷ cs) = ap suc (length-each_of body count cs)

pub drop-each_of :
    (body : TcacheNode → TcacheNode) (count : ℕ) (cs : List TcacheNode)
    → drop count (each_of body count cs) ≡ drop count cs
unfolding each_of
drop-each_of body zero cs = refl
drop-each_of body (suc count) [] = refl
drop-each_of body (suc count) (c ∷ cs) = drop-each_of body count cs

pub length-find_invalid :
    (hash : ℕ) (token : List ℕ) (tnow : ℕ) (cs : List TcacheNode)
    → length (find_invalid hash token tnow cs).1 ≡ length cs
unfolding find_invalid
length-find_invalid hash token tnow [] = refl
length-find_invalid hash token tnow (c ∷ cs) = elim (Bool-cases (holds hash token c)) [
  | inl e ↦ elim (Bool-cases (is_fresh token_timeout_invalid tnow c)) [
    | inl f ↦ rw (e, f) refl
    | inr f ↦ rw (e, f) refl
  ]
  | inr e ↦ rw e (ap suc (length-find_invalid hash token tnow cs))
]

pub find_valid-shape :
    (hash : ℕ) (token : List ℕ) (tnow count : ℕ) (cs : List TcacheNode)
    → (length (find_valid hash token tnow count cs).1 ≡ length cs)
      × (drop count (find_valid hash token tnow count cs).1 ≡ drop count cs)
unfolding find_valid
find_valid-shape hash token tnow zero cs = (refl, refl)
find_valid-shape hash token tnow (suc count) [] = (refl, refl)
find_valid-shape hash token tnow (suc count) (c ∷ cs) = elim (Bool-cases (holds hash token c)) [
  | inl e ↦ elim (Bool-cases (is_fresh token_timeout_valid tnow c)) [
    | inl f ↦ rw (e, f) ((refl, refl))
    | inr f ↦ rw (e, f) ((refl, refl))
  ]
  | inr e ↦ let (l, d) = find_valid-shape hash token tnow count cs in rw e ((ap suc l, d))
]
