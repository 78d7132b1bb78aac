-- ===== src/Notify/Linking.antt =====
-- `notifylist_link` on a list of notifications.
use opticon.Prelude.{
  ◌≡◌, ◌≢◌, refl, sym, ap, subst, ◌∙◌, true, false, some, [], ◌∷◌, ◌++◌, arith, ◌==◌, ◌||◌,
  Bool-cases, inl, inr, append_assoc, ◌⊎◌,
}
use opticon.Links.{Ptr, null, Ends, ends, Heap, node, update}
use opticon.Links.Cells.{
  Cells, has, Distinct, head_or, last_or, has-append, Distinct-append, Distinct-join,
  head_or-append, last_or-append,
}
use opticon.Links.Segments.{Seg, Seg-agree, Seg-parts, Seg-join}
use opticon.Links.Relink.{Outside, set_next-at, set_prev-at}
use opticon.Links.Unlink.{IsList}
use opticon.Notify.{Notification, link}

-- a node outside the list, its pointers unset
pub record IsLoose (h : Heap Notification) (p : Ptr) (v : Notification) (xs : Cells Notification)
    : Type 0 where
  pub address : p ≢ null
  pub at : h p ≡ some (node null null v)
  pub outside : has p xs ≡ false

-- What matters is `last` alone: the node goes behind it, whatever stood there.
pub link_after :
    (h : Heap Notification) (l : Ends) (xs : Cells Notification) (q : Ptr) (w : Notification)
    (nx p : Ptr) (v : Notification)
    → Distinct (xs ++ (q, w) ∷ [])
    → Seg h null (xs ++ (q, w) ∷ []) nx
    → l.last ≡ q
    → IsLoose h p v (xs ++ (q, w) ∷ [])
    → (h' : Heap Notification) × (link h l p ≡ some (h', l))
      × Seg h' null (xs ++ (q, w) ∷ (p, v) ∷ []) null
      × Outside h h' (xs ++ (q, w) ∷ (p, v) ∷ [])
unfolding link
link_after h l xs q w nx p v d s e i =
    let (before, (ne, at, after)) = Seg-parts h null xs ((q, w) ∷ []) nx s in
    let (dx, dq, apart) = Distinct-append xs ((q, w) ∷ []) d in
    let p_at = i.at in
    let p_ne = i.address in
    let p_new = i.outside in
    let new : has p xs ≡ false = ground (arith, has-append p xs ((q, w) ∷ [])) in
    let pq : p ≢ q = λ k. ground (arith, has-append p xs ((q, w) ∷ [])) in
    let pr = last_or null xs in
    let h1 = update h p (some (node null null v)) in
    let h2 = update h1 p (some (node q null v)) in
    let h' = update h2 q (some (node pr p w)) in
    let unset = set_next-at h p null null null v p_ne p_at in
    let back = set_prev-at h1 p null null q v p_ne (ground arith) in
    let forth = set_next-at h2 q pr nx p w ne (ground arith) in
    let some_last : (q == null) ≡ false = ground arith in
    (
      h',
      rw (unset, e, some_last, back, forth),
      Seg-join h' null xs ((q, w) ∷ (p, v) ∷ []) null
          (Seg-agree h h' null xs q (λ a m. ground (arith, apart a)) before)
          (ne, ground arith, (p_ne, ground arith, tt)),
      λ a m. ground (arith, has-append a xs ((q, w) ∷ (p, v) ∷ [])),
    )

-- what can be reached from `first`, whatever `last` says
pub record IsChain (h : Heap Notification) (l : Ends) (xs : Cells Notification) : Type 0 where
  pub first : l.first ≡ head_or null xs
  pub nodes : Seg h null xs null
  pub once : Distinct xs

Distinct-snoc :
    (xs : Cells Notification) (p : Ptr) (v : Notification)
    → Distinct xs
    → has p xs ≡ false
    → Distinct (xs ++ (p, v) ∷ [])
Distinct-snoc xs p v d new =
    Distinct-join xs ((p, v) ∷ []) d (refl, tt) (λ a m. other a m (Bool-cases (a == p)))
  where
    other :
        (a : Ptr)
        → has a xs ≡ true
        → ((a == p) ≡ true) ⊎ ((a == p) ≡ false)
        → ((a == p) || false) ≡ false
    other a m (inl k) =
        let at : a ≡ p = ground arith in absurd (cc (sym m ∙ ap (λ b. has b xs) at ∙ new))
    other a m (inr k) = ground arith

snoc :
    (c : Ptr × Notification) (xs : Cells Notification)
    → (ys : Cells Notification) × (q : Ptr) × (w : Notification) × (c ∷ xs ≡ ys ++ (q, w) ∷ [])
snoc (p, v) [] = ([], p, v, refl)
snoc (p, v) (c ∷ xs) = let (ys, q, w, e) = snoc c xs in ((p, v) ∷ ys, q, w, ap (λ t. (p, v) ∷ t) e)

pub IsChain-link :
    {h : Heap Notification} {l : Ends} (xs : Cells Notification) (q : Ptr) (w : Notification)
    (p : Ptr) (v : Notification)
    → IsList h l (xs ++ (q, w) ∷ [])
    → (h' : Heap Notification) → Seg h' null (xs ++ (q, w) ∷ (p, v) ∷ []) null
    → has p (xs ++ (q, w) ∷ []) ≡ false
    → IsChain h' l (xs ++ (q, w) ∷ (p, v) ∷ [])
IsChain-link xs q w p v i h' s new = record {
  first =
      i.first
      ∙ head_or-append null xs ((q, w) ∷ [])
      ∙ sym (head_or-append null xs ((q, w) ∷ (p, v) ∷ []));
  nodes = s;
  once =
      subst Distinct (append_assoc xs ((q, w) ∷ []) ((p, v) ∷ []))
        (Distinct-snoc (xs ++ (q, w) ∷ []) p v i.once new);
}

link_first :
    (h : Heap Notification) (l : Ends) (p : Ptr) (v : Notification)
    → l.last ≡ null
    → IsLoose h p v []
    → (h' : Heap Notification) × (link h l p ≡ some (h', ends p p))
      × Seg h' null ((p, v) ∷ []) null
      × Outside h h' ((p, v) ∷ [])
unfolding link
link_first h l p v e i =
    let p_at = i.at in
    let p_ne = i.address in
    let h1 = update h p (some (node null null v)) in
    let h' = update h1 p (some (node null null v)) in
    let unset = set_next-at h p null null null v p_ne p_at in
    let back = set_prev-at h1 p null null null v p_ne (ground arith) in
    let empty : (l.last == null) ≡ true = ground arith in
    (h', rw (unset, empty, back), (p_ne, ground arith, tt), λ a m. ground arith)

-- On a list whose `last` is right, the new node stands at the end, and what is linked is the list
-- and it.
pub link_lem :
    (h : Heap Notification) (l : Ends) (xs : Cells Notification) (p : Ptr) (v : Notification)
    → IsList h l xs
    → IsLoose h p v xs
    → (h' : Heap Notification) × (l' : Ends) × (link h l p ≡ some (h', l'))
      × IsChain h' l' (xs ++ (p, v) ∷ [])
      × Outside h h' (xs ++ (p, v) ∷ [])
link_lem h l [] p v i loose =
    let (h', e, s, out) = link_first h l p v i.last loose in
    (h', ends p p, e, record { first = refl; nodes = s; once = (refl, tt) }, out)
link_lem h l (c ∷ xs) p v i loose =
    let (ys, q, w, e) = snoc c xs in
    let i' : IsList h l (ys ++ (q, w) ∷ []) = subst (IsList h l) e i in
    let loose' : IsLoose h p v (ys ++ (q, w) ∷ []) = subst (IsLoose h p v) e loose in
    let (h', k, s, out) =
      link_after h l ys q w null p v i'.once i'.nodes
        (i'.last ∙ last_or-append null ys ((q, w) ∷ [])) loose' in
    let all : ys ++ (q, w) ∷ (p, v) ∷ [] ≡ (c ∷ xs) ++ (p, v) ∷ [] =
      sym (append_assoc ys ((q, w) ∷ []) ((p, v) ∷ [])) ∙ ap (λ t. t ++ (p, v) ∷ []) (sym e) in
    (
      h',
      l,
      k,
      subst (IsChain h' l) all (IsChain-link ys q w p v i' h' s loose'.outside),
      subst (Outside h h') all out,
    )
