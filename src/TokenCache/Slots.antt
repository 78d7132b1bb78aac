-- ===== src/TokenCache/Slots.antt =====
-- The slot that a store takes.
use opticon.Prelude.{
  refl, Bool, ◌⊎◌, ℕ, ◌+◌, ◌%◌, ◌<◌, ◌≤◌, ◌≡◌, Option, none, some, List, [], ◌∷◌, length, arith,
  ltb, leb, ◌==◌, ◌||◌, if◌then◌else◌, inl, inr, Bool-cases, true, false,
}
use opticon.TokenCache.{
  TcacheNode, TokenCache, find_slot, slot_or, valid_slot, token_timeout_valid,
  token_timeout_invalid,
}

abbrev InSlot : ℕ → Option ℕ → Type 0
InSlot n none = Unit
InSlot n (some i) = i < n

InSlot-if :
    (b : Bool) (n i : ℕ) (into : Option ℕ)
    → i < n
    → InSlot n into
    → InSlot n (if b then some i else into)
InSlot-if true n i into h p = h
InSlot-if false n i into h p = p

find_slot-InSlot :
    (timeout tnow i : ℕ) (into : Option ℕ) (oldest : ℕ) (cs : List TcacheNode) (n : ℕ)
    → i + length cs ≡ n
    → InSlot n into
    → InSlot n (find_slot timeout tnow i into oldest cs)
unfolding find_slot
find_slot-InSlot timeout tnow i into oldest [] n e p = p
find_slot-InSlot timeout tnow i into oldest (c ∷ cs) n e p =
    let older = ltb c.lastref oldest in
    elim (Bool-cases ((c.hashcode == 0) || leb (c.ctime + timeout) tnow)) [
      | inl f ↦ rw f (omega arith)
      | inr f ↦ rw f (
          find_slot-InSlot timeout tnow (i + 1) (if older then some i else into)
            (if older then c.lastref else oldest) cs n (omega arith)
            (InSlot-if older n i into (omega arith) p))
    ]

slot_or-lt : (n pick : ℕ) (into : Option ℕ) → pick < n → InSlot n into → slot_or pick into < n
slot_or-lt n pick none h p = h
slot_or-lt n pick (some i) h p = p

pub invalid_slot-lt :
    (tnow pick : ℕ) (cs : List TcacheNode)
    → length cs ≡ 16
    → slot_or (pick % 16) (find_slot token_timeout_invalid tnow 0 none tnow cs) < 16
invalid_slot-lt tnow pick cs e =
    slot_or-lt 16 (pick % 16) (find_slot token_timeout_invalid tnow 0 none tnow cs) (omega arith)
      (find_slot-InSlot token_timeout_invalid tnow 0 none tnow cs 16 (omega arith) tt)

-- The slot lies below the new count, which is that of before where the cache is full.
pub valid_slot_lem :
    (tnow pick : ℕ) (c : TokenCache)
    → length c.nodes ≡ 256
    → c.count ≤ 256
    → ((valid_slot tnow pick c).0 < (valid_slot tnow pick c).1)
      × ((valid_slot tnow pick c).1 ≤ 256)
      × (((valid_slot tnow pick c ≡ (c.count, c.count + 1)) × (c.count < 256))
          ⊎ ((valid_slot tnow pick c).1 ≡ 256))
valid_slot_lem tnow pick c e small = elim (Bool-cases (ltb c.count 256)) [
  | inl f ↦ rw f ((omega arith, ground arith, inl (refl, ground arith)))
  | inr f ↦
      let full : c.count ≡ 256 = ground arith in
      let low =
        slot_or-lt 256 (pick % 256) (find_slot token_timeout_valid tnow 0 none tnow c.nodes)
          (omega arith)
          (find_slot-InSlot token_timeout_valid tnow 0 none tnow c.nodes 256 (omega arith) tt) in
      rw f ((omega (arith, low), omega arith, inr full))
]
