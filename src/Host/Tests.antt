-- ===== src/Host/Tests.antt =====
-- A host with two meters.
use opticon.Prelude.{◌≡◌, refl, false, none, some, [], ◌∷◌, arith, bit_and}
use opticon.Prelude.Text.{codes, same}
use opticon.Links.{null, ends, Heap, node, update}
use opticon.Links.Cells.{Cells, has}
use opticon.Links.Relink.{Outside}
use opticon.MeterId.{makeid}
use opticon.Meter.{Meter, words, texts, get_str, element, as_texts}
use opticon.Host.{Host, mmask_id, fresh, get_meter, delete_meter, end_update}
use opticon.Host.Lists.{IsHost}
use opticon.Host.Adding.{HasAdded, get_meter-adds}
use opticon.Host.Deleting.{emptied, delete_meter_leaks}
use opticon.Host.Update.{end_update_lem, after_round}

abbrev load_meter : Meter
load_meter = record { id = 0x1800; count = 2; d = words (7 ∷ 9 ∷ []); lastmodified = 1000 }

abbrev status_meter : Meter
status_meter = record {
  id = makeid (codes "status") 0x8000000000000000 0;
  count = 0;
  d = texts (codes "WARN" ∷ []);
  lastmodified = 1700;
}

abbrev two : Cells Meter
two = (8, load_meter) ∷ (16, status_meter) ∷ []

abbrev memory : Heap Meter
memory =
    update (update (λ a. none) 8 (some (node null 16 load_meter))) 16
      (some (node 8 null status_meter))

abbrev two_meters : Host
two_meters = record {
  heap = memory;
  meters = ends 8 16;
  trash = null;
  mcount = 2;
  lastmodified = 1700;
}

two_meters-IsHost : IsHost two_meters two
two_meters-IsHost = record {
  list = record {
    first = refl;
    last = refl;
    nodes = (omega arith, refl, (omega arith, refl, tt));
    once = (refl, (refl, tt));
  };
  counted = refl;
}

get_meter-adds_example :
    (h' : Host) × (get_meter 3 two_meters 24 0x2803 ≡ some (24, h'))
    × HasAdded two_meters h' two 24 (fresh (bit_and 0x2803 mmask_id))
unfolding makeid
get_meter-adds_example =
    get_meter-adds two_meters two 3 24 0x2803 two_meters-IsHost
      (record { address = omega arith; outside = refl }) (refl, (refl, tt)) (omega arith)

delete_meter_leaks_example :
    (h' : Host) × (delete_meter two_meters 8 ≡ some h')
    × IsHost h' ((16, status_meter) ∷ [])
    × (h'.trash ≡ null)
    × (h'.lastmodified ≡ 1700)
    × (h'.heap 8 ≡ some (node null null (emptied load_meter)))
    × (has 8 ((16, status_meter) ∷ []) ≡ false)
    × Outside memory h'.heap two
delete_meter_leaks_example =
    delete_meter_leaks two_meters [] 8 load_meter ((16, status_meter) ∷ []) two_meters-IsHost refl

end_update_lem_example :
    (h' : Host) × (end_update 3 600 two_meters ≡ some h')
    × IsHost h' (after_round false 600 1700 two)
unfolding makeid get_str as_texts element same
end_update_lem_example =
    end_update_lem two_meters two 3 600 false two_meters-IsHost refl refl (omega arith)
