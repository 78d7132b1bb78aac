-- ===== src/Watch/Calculate.antt =====
-- src/libopticon/watchlist.c: `calculate_badness`, without what it logs. `none` is an access that
-- Meter refuses, or the match data read as another type than was written.
use opticon.Prelude.{
  ℕ, zero, suc, ◌+◌, Bool, true, false, ◌&&◌, Option, none, some, ◌>>=◌, List, ltb, leb,
  if◌then◌else◌,
}
use opticon.Prelude.Text.{same}
use opticon.Meter.{Meter, sz_empty_array, at_least_one, get_uint, get_frac, get_str}
use opticon.Watch.{
  WatchType, frac_lt, frac_gt, uint_lt, uint_gt, str_match, count, AdjustType, adjust_frac,
  adjust_uint, adjust_str, WatchTrigger, level, WatchData, u64, frac, str, WatchAdjust, MeterWatch,
  Doubles,
}

-- the members of the union
unfoldable pub as_u64 : WatchData → Option ℕ
as_u64 (u64 v) = some v
as_u64 (frac v) = none
as_u64 (str s) = none

unfoldable pub as_frac : WatchData → Option ℕ
as_frac (u64 v) = none
as_frac (frac v) = some v
as_frac (str s) = none

unfoldable pub as_str : WatchData → Option (List ℕ)
as_str (u64 v) = none
as_str (frac v) = none
as_str (str s) = some s

-- whether an adjustment has the type that the watch needs
abbrev pub fits : WatchType → AdjustType → Bool
fits frac_lt adjust_frac = true
fits frac_gt adjust_frac = true
fits uint_lt adjust_uint = true
fits uint_gt adjust_uint = true
fits count adjust_uint = true
fits str_match adjust_str = true
fits _ _ = false

-- What the meter is compared with: `w->dat`, or what the adjustment has for the level. A weight
-- that is taken over is not used further.
abbrev pub adjusted : Doubles → MeterWatch → Option WatchAdjust → WatchData
adjusted dbl w none = w.dat
adjusted dbl w (some adj) =
    if fits w.tp adj.type && dbl.weighs (adj.adjust w.trigger).weight
    then (adj.adjust w.trigger).data_of
    else w.dat

abbrev pub cnt : Meter → ℕ
cnt m = if leb sz_empty_array m.count then 0 else at_least_one m.count

-- Whether the watch finds the value at `i` bad, by the type of the watch.
unfoldable pub is_bad : Doubles → WatchType → WatchData → Meter → ℕ → Option Bool
unfolding as_frac as_u64 as_str same
is_bad dbl frac_gt dat m i = do t ← as_frac dat; v ← get_frac m i; some (dbl.above v t)
is_bad dbl frac_lt dat m i = do t ← as_frac dat; v ← get_frac m i; some (dbl.above t v)
is_bad dbl uint_gt dat m i = do t ← as_u64 dat; v ← get_uint m i; some (ltb t v)
is_bad dbl uint_lt dat m i = do t ← as_u64 dat; v ← get_uint m i; some (ltb v t)
is_bad dbl count dat m i = do t ← as_u64 dat; some (leb t (cnt m))
is_bad dbl str_match dat m i = do t ← as_str dat; v ← get_str m i; some (same v t)

-- `res` and `*maxtrig`
abbrev pub Total : Type 0
Total = ℕ × WatchTrigger

abbrev pub higher : WatchTrigger → WatchTrigger → WatchTrigger
higher trigger maxtrig = if ltb (level maxtrig) (level trigger) then trigger else maxtrig

abbrev pub counted : Doubles → MeterWatch → Bool → Total → Total
counted dbl w false (res, maxtrig) = (res, maxtrig)
counted dbl w true (res, maxtrig) = (dbl.plus res w.badness, higher w.trigger maxtrig)

-- The loop, `left` rounds from the end.
unfoldable pub badness_loop :
    Doubles → MeterWatch → WatchData → Meter → (left i : ℕ) → Total → Option Total
unfolding is_bad
badness_loop dbl w dat m zero i total = some total
badness_loop dbl w dat m (suc left) i total = do
  bad ← is_bad dbl w.tp dat m i
  badness_loop dbl w dat m left (i + 1) (counted dbl w bad total)

unfoldable pub calculate_badness :
    Doubles → Meter → MeterWatch → Option WatchAdjust → WatchTrigger → Option Total
unfolding badness_loop
calculate_badness dbl m w adj maxtrig =
    badness_loop dbl w (adjusted dbl w adj) m (at_least_one m.count) 0 (0, maxtrig)
