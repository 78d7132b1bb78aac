-- ===== src/Notify/Lost.antt =====
-- `notifylist_link` on a list that has a node, where it leaves `last` alone
-- (src/libopticon/notify.c).
use opticon.Prelude.{
  ◌≡◌, ◌≢◌, refl, sym, subst, append_assoc, ◌∙◌, false, none, some, [], ◌∷◌, ◌++◌, arith, ◌==◌,
}
use opticon.Links.{Ptr, null, Ends, Heap, node, update, set_next}
use opticon.Links.Cells.{Cells, has-append, last_or-append}
use opticon.Links.Segments.{Seg, Seg-parts}
use opticon.Links.Relink.{set_next-none, set_next-at, set_prev-at}
use opticon.Links.Unlink.{IsList, unlink-eq}
use opticon.Notify.{Notification, link, remove}
use opticon.Notify.Linking.{IsLoose, IsChain, IsChain-link, link_after}

-- Of two notifications linked to a list that has some already, the first is lost: the list holds
-- the second behind the ones it had.
pub link_twice :
    (h : Heap Notification) (l : Ends) (xs : Cells Notification) (q : Ptr) (w : Notification)
    (p : Ptr) (v : Notification) (r : Ptr) (u : Notification)
    → IsList h l (xs ++ (q, w) ∷ [])
    → IsLoose h p v (xs ++ (q, w) ∷ [])
    → IsLoose h r u (xs ++ (q, w) ∷ [])
    → r ≢ p
    → (h1 : Heap Notification) × (h2 : Heap Notification) × (link h l p ≡ some (h1, l))
      × (link h1 l r ≡ some (h2, l))
      × IsChain h2 l (xs ++ (q, w) ∷ (r, u) ∷ [])
link_twice h l xs q w p v r u i loose_p loose_r ne =
    let at_last = i.last ∙ last_or-append null xs ((q, w) ∷ []) in
    let (h1, e1, s1, out1) = link_after h l xs q w null p v i.once i.nodes at_last loose_p in
    let (cut, _) =
      Seg-parts h1 null (xs ++ (q, w) ∷ []) ((p, v) ∷ []) null
        (subst (λ t. Seg h1 null t null) (sym (append_assoc xs ((q, w) ∷ []) ((p, v) ∷ []))) s1) in
    let r_ne = loose_r.address in
    let r_new = loose_r.outside in
    let loose : IsLoose h1 r u (xs ++ (q, w) ∷ []) = record {
      address = r_ne;
      at =
          out1 r
            (ground (arith, has-append r xs ((q, w) ∷ (p, v) ∷ []), has-append r xs ((q, w) ∷ [])))
          ∙ loose_r.at;
      outside = r_new;
    } in
    let (h2, e2, s2, out2) = link_after h1 l xs q w p r u i.once cut at_last loose in
    (h1, h2, e1, e2, IsChain-link xs q w r u i (h2) s2 r_new)

-- Where the only node of a list is followed by a new one and then removed, `last` points to freed
-- memory, and the next link writes there.
pub link_freed :
    (h : Heap Notification) (l : Ends) (q : Ptr) (w : Notification) (p : Ptr) (v : Notification)
    (r : Ptr) (u : Notification)
    → IsList h l ((q, w) ∷ [])
    → IsLoose h p v ((q, w) ∷ [])
    → IsLoose h r u ((q, w) ∷ [])
    → r ≢ p
    → (h1 : Heap Notification) × (h2 : Heap Notification) × (l2 : Ends) × (link h l p
        ≡ some (h1, l))
      × (remove h1 l q ≡ some (h2, l2))
      × (h2 r ≡ some (node null null u))
      × (link h2 l2 r ≡ none)
unfolding remove link
link_freed h l q w p v r u i loose_p loose_r ne =
    let q_ne = i.nodes.0 in
    let at_last : l.last ≡ q = i.last in
    let (h1, e1, s1, out1) = link_after h l [] q w null p v i.once i.nodes i.last loose_p in
    let p_ne = loose_p.address in
    let r_ne = loose_r.address in
    let r_new = loose_r.outside in
    let p_new = loose_p.outside in
    let g = update h1 p (some (node null null v)) in
    let h2 = update g q none in
    let cut = set_prev-at h1 p q null null v p_ne s1.2.1 in
    let h3 = update h2 r (some (node null null u)) in
    let h4 = update h3 r (some (node q null u)) in
    let at_r : h2 r ≡ some (node null null u) = ground (arith, out1 r) in
    let unset = set_next-at h2 r null null null u r_ne at_r in
    let back = set_prev-at h3 r null null q u r_ne (ground arith) in
    let fault : set_next h4 q r ≡ none = set_next-none h4 q r (ground arith) in
    let p_some : (p == null) ≡ false = ground arith in
    let q_some : (q == null) ≡ false = ground arith in
    let removed = unlink-eq h1 g g l q null p w q_ne s1.1 (rw p_some cut) refl in
    (
      h1,
      h2,
      record l { first = p },
      e1,
      rw p_some at removed,
      at_r,
      rw (unset, at_last, q_some, back, fault),
    )
