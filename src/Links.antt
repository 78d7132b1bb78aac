-- ===== src/Links.antt =====
-- Doubly linked lists on a heap, as the C code of several files keeps them: nodes with `prev` and
-- `next`, and an owner with `first` and `last`. The unlinking of a node is that of
-- `notifylist_remove` (src/libopticon/notify.c), which host.c and auth.c repeat.
pub mod Cells
pub mod Segments
pub mod Relink
pub mod Unlink
pub mod Walk
pub mod Items
pub mod Append
use opticon.Prelude.{ℕ, Option, none, some, Bool, zero, suc, ◌==◌, if◌then◌else◌, ◌>>=◌}

abbrev pub Ptr : Type 0
Ptr = ℕ

abbrev pub null : Ptr
null = 0

-- `first` and `last` of the owner
pub record Ends : Type 0 where
  pub first : Ptr
  pub last : Ptr

abbrev pub ends : Ptr → Ptr → Ends
ends p q = record { first = p; last = q }

module _ (A : Type 0) where
  pub record Node : Type 0 where
    pub prev : Ptr
    pub next : Ptr
    pub item : A

  -- The node at an address; `none` at `NULL` and where nothing is allocated.
  abbrev pub Heap : Type 0
  Heap = Ptr → Option Node

module _ {A : Type 0} where
  abbrev pub node : Ptr → Ptr → A → Node A
  node p q v = record { prev = p; next = q; item = v }

  abbrev pub update : Heap A → Ptr → Option (Node A) → Heap A
  update h p c a = if a == p then c else h a

  -- `*p`, a fault at `NULL` and at a freed node
  abbrev pub load : Heap A → Ptr → Option (Node A)
  load h p = if p == null then none else h p

  unfoldable pub set_next : Heap A → Ptr → Ptr → Option (Heap A)
  set_next h p q = do n ← load h p; some (update h p (some (record n { next = q })))

  unfoldable pub set_prev : Heap A → Ptr → Ptr → Option (Heap A)
  set_prev h p q = do n ← load h p; some (update h p (some (record n { prev = q })))

  unfoldable pub set_item : Heap A → Ptr → A → Option (Heap A)
  set_item h p v = do n ← load h p; some (update h p (some (record n { item = v })))

  -- Takes the node at `p` out of the list and frees it.
  unfoldable pub unlink : Heap A → Ends → Ptr → Option (Heap A × Ends)
  unfolding set_next set_prev
  unlink h l p = do
    n ← load h p
    (h', l') ←
        if n.prev == null
        then if n.next == null
          then some (h, ends null null)
          else (do g ← set_prev h n.next null; some (g, record l { first = n.next }))
        else if n.next == null
        then (do g ← set_next h n.prev null; some (g, record l { last = n.prev }))
        else (do g ← set_prev h n.next n.prev; g' ← set_next g n.prev n.next; some (g', l))
    some (update h' p none, l')

  -- `while (n) { if (test (n)) return n; n = n->next; } return n;`, with fuel
  unfoldable pub first_where : (A → Bool) → Heap A → ℕ → Ptr → Option Ptr
  first_where test h zero n = none
  first_where test h (suc fuel) n =
      let rest = (do
        c ← load h n
        let next = first_where test h fuel c.next
        if test c.item then some n else next) in
      if n == null then some null else rest

  -- `while (n) { nn = n->next; free (n); n = nn; }`, with fuel
  unfoldable pub free_all : Heap A → ℕ → Ptr → Option (Heap A)
  free_all h zero n = none
  free_all h (suc fuel) n =
      let rest = (do c ← load h n; free_all (update h n none) fuel c.next) in
      if n == null then some h else rest
