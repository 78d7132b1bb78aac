-- ===== src/Host/Lists.antt =====
-- The meters of a host as a list, and the lookups on it.
use opticon.Prelude.{ap, ℕ, ◌<◌, ◌≡◌, refl, ◌∙◌, Bool, false, some, [], ◌∷◌, length}
use opticon.Links.{null, first_where}
use opticon.Links.Cells.{Cells}
use opticon.Links.Unlink.{IsList}
use opticon.Links.Walk.{find_cell, first_where_lem}
use opticon.Meter.{Meter}
use opticon.Host.{alloc_host, begin_update, Host}

-- the meters that a host has, in order, and their number
pub record IsHost (h : Host) (xs : Cells Meter) : Type 0 where
  pub list : IsList h.heap h.meters xs
  pub counted : h.mcount ≡ length xs

-- no meter passes a test
abbrev pub Nowhere : (Meter → Bool) → Cells Meter → Type 0
Nowhere test [] = Unit
Nowhere test ((p, m) ∷ xs) = (test m ≡ false) × Nowhere test xs

pub find_cell-Nowhere :
    (test : Meter → Bool) (xs : Cells Meter) → Nowhere test xs → find_cell test xs ≡ null
find_cell-Nowhere test [] all = refl
find_cell-Nowhere test ((p, m) ∷ xs) (e, all) = rw e (find_cell-Nowhere test xs all)

pub first_where-IsList :
    (test : Meter → Bool) (h : Host) (xs : Cells Meter) (fuel : ℕ)
    → IsHost h xs
    → length xs < fuel
    → first_where test h.heap fuel h.meters.first ≡ some (find_cell test xs)
first_where-IsList test h xs fuel i f =
    ap (first_where test h.heap fuel) i.list.first
    ∙ first_where_lem test h.heap fuel null xs i.list.nodes f

-- A new host, whatever its time, has no meters.
pub alloc_host-IsHost : (now : ℕ) → IsHost (begin_update alloc_host now) []
unfolding begin_update
alloc_host-IsHost now = record {
  list = record { first = refl; last = refl; nodes = tt; once = tt };
  counted = refl;
}
