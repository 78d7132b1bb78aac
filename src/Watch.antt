-- ===== src/Watch.antt =====
-- src/libopticon/watchlist.c and src/libopticon/adjust.c: the watches of a tenant and the
-- adjustments that a host makes to them. `malloc` is an address that the caller gives, and a double
-- is its bit pattern, 0 for 0.0; what the arithmetic says of doubles is `Doubles`.
pub mod Calculate
pub mod Badness
pub mod Lists
mod Tests
use opticon.Prelude.{
  ℕ, zero, suc, ◌+◌, ◌*◌, ◌/◌, Bool, true, false, ◌&&◌, ◌||◌, not, Option, none, some, ◌>>=◌, List,
  [], ◌∷◌, ltb, leb, ◌==◌, if◌then◌else◌, bit_and, take,
}
use opticon.Prelude.Text.{same}
use opticon.Links.{
  Ptr, null, ends, Ends, node, Heap, update, set_next, set_prev, first_where, free_all,
}
use opticon.MeterId.{mmask_name}
use opticon.Meter.{Meter, sz_empty_array, at_least_one, get_uint, get_frac, get_str}

pub data WatchType : Type 0 where
  frac_lt : WatchType
  frac_gt : WatchType
  uint_lt : WatchType
  uint_gt : WatchType
  str_match : WatchType
  count : WatchType

pub data AdjustType : Type 0 where
  adjust_none : AdjustType
  adjust_frac : AdjustType
  adjust_uint : AdjustType
  adjust_str : AdjustType

pub data WatchTrigger : Type 0 where
  watch_none : WatchTrigger
  watch_warn : WatchTrigger
  watch_alert : WatchTrigger
  watch_crit : WatchTrigger

-- the number of a level, for `>`
abbrev pub level : WatchTrigger → ℕ
level watch_none = 0
level watch_warn = 1
level watch_alert = 2
level watch_crit = 3

-- The union `watchdata`, by the member that was written.
pub data WatchData : Type 0 where
  u64 : ℕ → WatchData
  frac : ℕ → WatchData
  str : List ℕ → WatchData

pub record AdjustData : Type 0 where
  pub data_of : WatchData
  pub weight : ℕ

-- `watchadjust`, less its links; the array `adjust` has an element for each level.
pub record WatchAdjust : Type 0 where
  pub type : AdjustType
  pub id : ℕ
  pub adjust : WatchTrigger → AdjustData

-- `meterwatch`, less its links
pub record MeterWatch : Type 0 where
  pub trigger : WatchTrigger
  pub id : ℕ
  pub tp : WatchType
  pub dat : WatchData
  pub badness : ℕ

-- `a + b`, `a > b` and `a > 0.0001` of doubles
pub record Doubles : Type 0 where
  pub plus : ℕ → ℕ → ℕ
  pub above : ℕ → ℕ → Bool
  pub weighs : ℕ → Bool

-- A list on its heap; `watchlist` and `adjustlist`.
module _ (A : Type 0) where
  pub record Owned : Type 0 where
    pub heap : Heap A
    pub list : Ends

module _ {A : Type 0} where
  -- A new node `p` behind the others, as `watchlist_add` and `adjustlist_get` write it.
  unfoldable pub add : Owned A → Ptr → A → Option (Owned A)
  add self p v = do
    let h = update self.heap p (some (node null null v))
    if self.list.last == null then some (record { heap = h; list = ends p p }) else (do
      h' ← set_prev h p self.list.last
      h'' ← set_next h' self.list.last p
      some (record { heap = h''; list = ends self.list.first p }))

  unfoldable pub clear : ℕ → Owned A → Option (Owned A)
  clear fuel self = do
    h ← free_all self.heap fuel self.list.first
    some (record { heap = h; list = ends null null })

unfoldable pub watchlist_add_uint :
    Owned MeterWatch → Ptr → ℕ → WatchType → ℕ → ℕ → WatchTrigger → Option (Owned MeterWatch)
watchlist_add_uint self w id tp val bad trig =
    add self w (record { trigger = trig; id = id; tp = tp; dat = u64 val; badness = bad })

unfoldable pub watchlist_add_frac :
    Owned MeterWatch → Ptr → ℕ → WatchType → ℕ → ℕ → WatchTrigger → Option (Owned MeterWatch)
watchlist_add_frac self w id tp val bad trig =
    add self w (record { trigger = trig; id = id; tp = tp; dat = frac val; badness = bad })

-- `strncpy` of 127 characters
unfoldable pub watchlist_add_str :
    Owned MeterWatch → Ptr → ℕ → WatchType → List ℕ → ℕ → WatchTrigger → Option (Owned MeterWatch)
watchlist_add_str self w id tp val bad trig =
    add self w
      (record { trigger = trig; id = id; tp = tp; dat = str (take 127 val); badness = bad })

abbrev pub has_name : ℕ → WatchAdjust → Bool
has_name id w = bit_and w.id mmask_name == bit_and id mmask_name

unfoldable pub adjustlist_find : ℕ → Owned WatchAdjust → ℕ → Option Ptr
adjustlist_find fuel self id = first_where (has_name id) self.heap fuel self.list.first

-- A new adjustment, which `calloc` fills with zeroes.
abbrev pub new_adjust : ℕ → WatchAdjust
new_adjust id = record {
  type = adjust_none;
  id = bit_and id mmask_name;
  adjust = λ _. record { data_of = u64 0; weight = 0 };
}

unfoldable pub adjustlist_get : ℕ → Owned WatchAdjust → Ptr → ℕ → Option (Ptr × Owned WatchAdjust)
adjustlist_get fuel self p id = do
  w ← adjustlist_find fuel self id
  if not (w == null)
      then some (w, self)
      else (do self' ← add self p (new_adjust id); some (p, self'))
