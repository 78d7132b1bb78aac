-- ===== src/Watch/Tests.antt =====
-- A load average that is watched, and a list of adjustments.
use opticon.Prelude.{◌+◌, ◌≡◌, refl, none, some, [], ◌∷◌, ltb, arith, inl, ◌==◌, if◌then◌else◌}
use opticon.Links.{Ptr, null, ends, node}
use opticon.Links.Cells.{Cells}
use opticon.Meter.{get_uint, as_words, element, Meter, words, no_data, sz_empty_array}
use opticon.Watch.{
  Owned, Doubles, MeterWatch, WatchAdjust, watch_none, watch_warn, watch_alert, uint_gt, uint_lt,
  u64, adjust_uint, adjustlist_get, new_adjust,
}
use opticon.Watch.Calculate.{calculate_badness, higher}
use opticon.Watch.Badness.{
  HoldsWords, calculate_badness_lem, calculate_badness-no_values, count_true, times, verdicts,
  compares, level_after,
}
use opticon.Watch.Lists.{HasAdded, adjustlist_get-adds}

-- doubles that are whole numbers
abbrev whole : Doubles
whole = record { plus = λ a b. a + b; above = λ a b. ltb b a; weighs = λ a. ltb 0 a }

abbrev queues : Meter
queues = record { id = 64; count = 3; d = words (4 ∷ 90 ∷ 61 ∷ []); lastmodified = 7 }

abbrev blank : Meter
blank = record { id = 64; count = sz_empty_array; d = no_data; lastmodified = 7 }

abbrev too_long : MeterWatch
too_long = record { trigger = watch_warn; id = 64; tp = uint_gt; dat = u64 50; badness = 8 }

abbrev too_short : MeterWatch
too_short = record too_long { tp = uint_lt }

-- at the level of a warning, 80 in place of 50
abbrev milder : WatchAdjust
milder = record {
  type = adjust_uint;
  id = 64;
  adjust = λ _. record { data_of = u64 80; weight = 1 };
}

calculate_badness-adjusted :
    calculate_badness whole queues too_long (some milder) watch_none ≡ some (8, watch_warn)
unfolding calculate_badness get_uint as_words element
calculate_badness-adjusted = refl

queues-HoldsWords : HoldsWords queues (4 ∷ 90 ∷ 61 ∷ [])
queues-HoldsWords = record { type = refl; few = omega arith; block = refl; size = refl }

calculate_badness_lem_example :
    let n = count_true (verdicts (compares uint_gt 50) (4 ∷ 90 ∷ 61 ∷ [])) in
    calculate_badness whole queues too_long none watch_alert
    ≡ some (times whole 8 n 0, level_after watch_warn n watch_alert)
calculate_badness_lem_example =
    calculate_badness_lem whole queues too_long none watch_alert (4 ∷ 90 ∷ 61 ∷ []) 50
      queues-HoldsWords (inl refl) refl

calculate_badness-no_values_example :
    calculate_badness whole blank too_short none watch_none
    ≡ some (times whole 8 31 0, higher watch_warn watch_none)
calculate_badness-no_values_example =
    calculate_badness-no_values whole blank too_short none watch_none 50 (omega arith)
      (inl (refl, omega arith)) refl

abbrev one_adjustment : Owned WatchAdjust
one_adjustment = record {
  heap = λ a. if a == 0x10 then some (node null null milder) else none;
  list = ends 0x10 0x10;
}

abbrev cells : Cells WatchAdjust
cells = (0x10, milder) ∷ []

adjustlist_get-adds_example :
    (self' : Owned WatchAdjust) × (adjustlist_get 3 one_adjustment 0x20 96 ≡ some (0x20, self'))
    × HasAdded one_adjustment self' cells 0x20 (new_adjust 96)
    × ((p' : Ptr) → adjustlist_get 3 self' p' 96 ≡ some (0x20, self'))
adjustlist_get-adds_example =
    adjustlist_get-adds one_adjustment cells 3 0x20 96
      (record { first = refl; last = refl; nodes = (ground arith, refl, tt); once = (refl, tt) })
      (record { address = ground arith; outside = refl }) refl (omega arith)
