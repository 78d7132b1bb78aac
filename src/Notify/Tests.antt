-- ===== src/Notify/Tests.antt =====
-- Lists of one and two notifications, and the theorems at them.
use opticon.Prelude.{ℕ, ◌≡◌, refl, true, false, none, some, [], ◌∷◌, arith}
use opticon.Links.{null, Ends, ends, Heap, node, update}
use opticon.Links.Cells.{Cells}
use opticon.Links.Relink.{Outside}
use opticon.Links.Unlink.{IsList}
use opticon.Notify.{Notification, set_status, set_notification, link, remove}
use opticon.Notify.Linking.{IsLoose, IsChain, link_lem}
use opticon.Notify.Lost.{link_twice, link_freed}
use opticon.Notify.Tenant.{about, set_in_list, set_notification_refines}
use opticon.Notify.Recovery.{recovery_dropped}
use opticon.Uuid.{Uuid, uuidcmp}

abbrev host_a : Uuid
host_a = record { msb = 1; lsb = 2 }

abbrev host_b : Uuid
host_b = record { msb = 3; lsb = 4 }

abbrev stale : Uuid → ℕ → Notification
stale hostid at = record {
  hostid = hostid;
  notified = false;
  isproblem = true;
  status = 83 ∷ 84 ∷ [];
  lastchange = at;
}

abbrev told : Notification
told = record (stale host_a 1000) { notified = true }

abbrev nothing : Heap Notification
nothing a = none

abbrev one : Heap Notification
one = update nothing 8 (some (node null null told))

abbrev two : Heap Notification
two =
    update (update nothing 8 (some (node null 16 (stale host_a 1000)))) 16
      (some (node 8 null (stale host_b 1200)))

abbrev two_cells : Cells Notification
two_cells = (8, stale host_a 1000) ∷ (16, stale host_b 1200) ∷ []

-- with two nodes that are not linked yet
abbrev spare : Heap Notification
spare =
    update (update one 24 (some (node null null (stale host_b 1300)))) 32
      (some (node null null (stale host_b 1400)))

one-IsList : IsList one (ends 8 8) ((8, told) ∷ [])
one-IsList = record {
  first = refl;
  last = refl;
  nodes = (omega arith, refl, tt);
  once = (refl, tt);
}

spare-IsList : IsList spare (ends 8 8) ((8, told) ∷ [])
spare-IsList = record {
  first = refl;
  last = refl;
  nodes = (omega arith, refl, tt);
  once = (refl, tt);
}

two-IsList : IsList two (ends 8 16) two_cells
two-IsList = record {
  first = refl;
  last = refl;
  nodes = (omega arith, refl, (omega arith, refl, tt));
  once = (refl, (refl, tt));
}

IsLoose-24 : IsLoose spare 24 (stale host_b 1300) ((8, told) ∷ [])
IsLoose-24 = record { address = omega arith; at = refl; outside = refl }

IsLoose-32 : IsLoose spare 32 (stale host_b 1400) ((8, told) ∷ [])
IsLoose-32 = record { address = omega arith; at = refl; outside = refl }

link_lem_example :
    (h' : Heap Notification) × (l' : Ends) × (link spare (ends 8 8) 24 ≡ some (h', l'))
    × IsChain h' l' ((8, told) ∷ (24, stale host_b 1300) ∷ [])
    × Outside spare h' ((8, told) ∷ (24, stale host_b 1300) ∷ [])
link_lem_example =
    link_lem spare (ends 8 8) ((8, told) ∷ []) 24 (stale host_b 1300) spare-IsList IsLoose-24

link_twice_example :
    (h1 : Heap Notification) × (h2 : Heap Notification) × (link spare (ends 8 8) 24
      ≡ some (h1, ends 8 8))
    × (link h1 (ends 8 8) 32 ≡ some (h2, ends 8 8))
    × IsChain h2 (ends 8 8) ((8, told) ∷ (32, stale host_b 1400) ∷ [])
link_twice_example =
    link_twice spare (ends 8 8) [] 8 told 24 (stale host_b 1300) 32 (stale host_b 1400) spare-IsList
      IsLoose-24 IsLoose-32 (omega arith)

link_freed_example :
    (h1 : Heap Notification) × (h2 : Heap Notification) × (l2 : Ends) × (link spare (ends 8 8) 24
      ≡ some (h1, ends 8 8))
    × (remove h1 (ends 8 8) 8 ≡ some (h2, l2))
    × (h2 32 ≡ some (node null null (stale host_b 1400)))
    × (link h2 l2 32 ≡ none)
link_freed_example =
    link_freed spare (ends 8 8) 8 told 24 (stale host_b 1300) 32 (stale host_b 1400) spare-IsList
      IsLoose-24 IsLoose-32 (omega arith)

set_notification_refines_example :
    (h' : Heap Notification) × (l' : Ends) × (set_notification 5 24 two
        (ends 8 16)
        true
        (79 ∷ [])
        host_b
        1500
      ≡ some (h', l'))
    × IsChain h' l' (set_in_list 24 true (79 ∷ []) host_b 1500 two_cells)
set_notification_refines_example =
    set_notification_refines 5 24 two (ends 8 16) true (79 ∷ []) host_b 1500 two_cells two-IsList
      (omega arith) refl (omega arith)

about-told : about host_a told ≡ true
unfolding uuidcmp
about-told = refl

recovery_dropped_example :
    (h1 : Heap Notification) × (l1 : Ends) × (h2 : Heap Notification) × (l2 : Ends)
    × (set_notification 5 24 one (ends 8 8) false (79 ∷ []) host_a 1500 ≡ some (h1, l1))
    × IsList h1 l1
        ((8, record (set_status told (79 ∷ [])) { lastchange = 1500; notified = false }) ∷ [])
    × (set_notification 5 24 h1 l1 false (79 ∷ []) host_a 1560 ≡ some (h2, l2))
    × IsList h2 l2 []
recovery_dropped_example =
    recovery_dropped 5 24 one (ends 8 8) (79 ∷ []) host_a 1500 1560 [] 8 told [] one-IsList
      (omega arith) tt about-told refl refl
