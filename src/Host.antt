-- ===== src/Host.antt =====
-- src/libopticon/host.c: the meters of a host, linked from `first` to `last`, and the meters that
-- were deleted. `malloc` is the address `p`; `fuel` bounds the walks along `next`, and a walk that
-- runs out, like an access to memory that is not there, is `none`.
pub mod Lists
pub mod Adding
pub mod Deleting
pub mod Update
mod Tests
use opticon.Prelude.{
  ℕ, zero, suc, ◌+◌, ◌-◌, Bool, true, false, ◌&&◌, ◌||◌, not, Option, none, some, ◌>>=◌, List, [],
  ltb, ◌==◌, if◌then◌else◌, bit_and, bit_or, length, take,
}
use opticon.Prelude.Text.{same, codes}
use opticon.Links.{
  Ptr, null, Ends, ends, Heap, node, update, load, set_next, set_prev, set_item, unlink,
  first_where, free_all,
}
use opticon.MeterId.{mmask_name, makeid}
use opticon.MeterId.Paths.{id2mask, idisprefix, idhaspath}
use opticon.Meter.{
  Meter, MeterData, words, texts, alloc, mmask_type, mtype_str, sz_empty_array, at_least_one,
  get_str, set_empty,
}

-- `host`, with the memory of its meters, as far as its meters go
pub record Host : Type 0 where
  pub heap : Heap Meter
  pub meters : Ends
  pub trash : Ptr
  pub mcount : ℕ
  pub lastmodified : ℕ

-- `host_alloc`, with no other meter in the memory
abbrev pub alloc_host : Host
alloc_host = record {
  heap = λ a. none;
  meters = ends null null;
  trash = null;
  mcount = 0;
  lastmodified = 0;
}

-- `MMASK_TYPE | MMASK_NAME`
abbrev pub mmask_id : ℕ
mmask_id = 0xffffffffffffffe0

-- The tests of the lookups.
abbrev pub has_id : ℕ → Meter → Bool
has_id id m = m.id == bit_and id mmask_id

abbrev pub has_name : ℕ → Meter → Bool
has_name id m = bit_and m.id mmask_name == bit_and id mmask_name

pub has_meter : ℕ → Host → ℕ → Option Bool
has_meter fuel h id = do
  m ← first_where (has_id id) h.heap fuel h.meters.first
  some (not (m == null))

unfoldable pub find_meter_name : ℕ → Host → ℕ → Option Ptr
find_meter_name fuel h id = first_where (has_name id) h.heap fuel h.meters.first

pub find_meter : ℕ → Host → ℕ → Option Ptr
find_meter fuel h id = first_where (has_id id) h.heap fuel h.meters.first

-- `meter_alloc`, with the id
abbrev pub fresh : ℕ → Meter
fresh rid = record alloc { id = rid }

-- what ends the walk of `host_get_meter`: the id, or the name of a meter marked as an empty array
abbrev pub is_taken : ℕ → Meter → Bool
is_taken rid m =
    (m.id == rid)
    || ((bit_and m.id mmask_name == bit_and rid mmask_name) && (m.count == sz_empty_array))

-- the new meter behind the last one, `m`
pub append_meter : Host → Ptr → ℕ → Ptr → Option (Ptr × Host)
append_meter h p rid m = do
  let h1 = update h.heap p (some (node null null (fresh rid)))
  h2 ← set_next h1 m p
  h3 ← set_prev h2 p m
  some (p, record h { heap = h3; meters = ends h.meters.first p; mcount = h.mcount + 1 })

pub get_from : ℕ → Host → Ptr → ℕ → Ptr → Option (Ptr × Host)
get_from zero h p rid m = none
get_from (suc fuel) h p rid m = do
  c ← load h.heap m
  let rest = get_from fuel h p rid c.next
  if is_taken rid c.item
      then some (m, h)
      else if not (c.next == null)
      then rest
      else append_meter h p rid m

pub get_meter : ℕ → Host → Ptr → ℕ → Option (Ptr × Host)
get_meter fuel h p id =
    let rid = bit_and id mmask_id in
    if h.meters.first == null
    then some (
      p,
      record h {
        heap = update h.heap p (some (node null null (fresh rid)));
        meters = ends p p;
        mcount = 1;
      },
    )
    else get_from fuel h p rid h.meters.first

-- The walk starts behind `prev`, or behind the first meter.
pub find_prefix : ℕ → Host → ℕ → Ptr → Option Ptr
find_prefix fuel h prefix prev =
    let crsr = if prev == null then h.meters.first else prev in
    let mask = id2mask prefix in
    let is_child : Meter → Bool =
      λ m. (bit_and m.id mask == bit_and prefix mmask_name) && idisprefix prefix m.id mask in
    if crsr == null
    then some null
    else do c ← load h.heap crsr; first_where is_child h.heap fuel c.next

-- `meter_next_sibling`
pub next_sibling : ℕ → Host → Ptr → Option Ptr
next_sibling fuel h m = do
  c ← load h.heap m
  let mask = idhaspath c.item.id
  if mask == 0
      then some null
      else first_where (λ (s : Meter). bit_and s.id mask == bit_and c.item.id mask) h.heap fuel
          c.next

pub empty_trash : ℕ → Host → Option Host
empty_trash fuel self = do
  heap ← free_all self.heap fuel self.trash
  some (record self { heap = heap; trash = null })

-- The node is taken out as by `unlink`, but stays where it is, its links unset. It joins the trash
-- only if there is some.
pub delete_meter : Host → Ptr → Option Host
delete_meter h m = do
  c ← load h.heap m
  (heap, meters) ← unlink h.heap h.meters m
  v ← set_empty h.lastmodified c.item
  let reset : Meter = record v { lastmodified = 0 }
  let loose = update heap m (some (node null h.trash reset))
  let out = record h { heap = loose; meters = meters; mcount = h.mcount - 1 }
  if h.trash == null
      then some out
      else (do heap' ← set_prev loose h.trash m; some (record out { heap = heap'; trash = m }))

unfoldable pub begin_update : Host → ℕ → Host
begin_update h t = record h { lastmodified = t }

-- the loop of `host_end_update`
pub sweep : ℕ → ℕ → Bool → ℕ → Host → Ptr → Option Host
sweep zero timeout is_stale last h m = none
sweep (suc fuel) timeout is_stale last h m =
    let rest = (do
      c ← load h.heap m
      h' ←
          if is_stale
          then (do
            heap ← set_item h.heap m (record (c.item) { lastmodified = last })
            some (record h { heap = heap }))
          else if ltb c.item.lastmodified last && ltb timeout (last - c.item.lastmodified)
          then delete_meter h m
          else some h
      sweep fuel timeout is_stale last h' c.next) in
    if m == null then some h else rest

abbrev pub mid_status : ℕ
mid_status = makeid (codes "status") mtype_str 0

-- `timeout` is `default_meter_timeout`
pub end_update : ℕ → ℕ → Host → Option Host
end_update fuel timeout h = do
  m_status ← find_meter fuel h mid_status
  is_stale ← if m_status == null then some false else (do
    c ← load h.heap m_status
    status ← get_str c.item 0
    some (same status (codes "STALE")))
  h' ← empty_trash fuel h
  sweep fuel timeout is_stale h'.lastmodified h' h'.meters.first

-- what `host_set_meter_uint` and the others write to the meter; `memcpy` reads `count` elements
abbrev pub filled : Host → Ptr → ℕ → MeterData → Option (Ptr × Host)
filled h m cnt d = do
  c ← load h.heap m
  heap ← set_item h.heap m (record (c.item) { count = cnt; lastmodified = h.lastmodified; d = d })
  some (m, record h { heap = heap })

pub set_meter_uint : ℕ → Host → Ptr → ℕ → ℕ → List ℕ → Option (Ptr × Host)
set_meter_uint fuel h p id cnt source = do
  let count = at_least_one cnt
  (m, h') ← get_meter fuel h p id
  if ltb (length source) count then none else filled h' m cnt (words (take count source))

pub set_meter_str : ℕ → Host → Ptr → ℕ → ℕ → List (List ℕ) → Option (Ptr × Host)
set_meter_str fuel h p id cnt str = do
  let count = at_least_one cnt
  (m, h') ← get_meter fuel h p id
  if ltb (length str) count then none else filled h' m cnt (texts (take count str))
