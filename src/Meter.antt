-- ===== src/Meter.antt =====
-- src/libopticon/meter.c: the values of a meter. A value is stored in a block of the memory, which
-- is as long as the type of the meter was when it was allocated; `none` is an access outside the
-- block, or one that reads its bytes as another type. A double is its bit pattern, 0 for 0.0, and
-- `now` is the `lastmodified` of the host.
mod Tests
pub mod Values
use opticon.Prelude.{
  ℕ, zero, suc, ◌+◌, ◌*◌, ◌/◌, Bool, true, false, ◌&&◌, ◌||◌, Option, none, some, ◌>>=◌, List, [],
  ◌∷◌, ltb, leb, ◌==◌, if◌then◌else◌, bit_and, length, replicate, take, set,
}
use opticon.MeterId.{mmask_name}

abbrev pub mtype_int : ℕ
mtype_int = 0x0000000000000000

abbrev pub mtype_frac : ℕ
mtype_frac = 0x4000000000000000

abbrev pub mtype_str : ℕ
mtype_str = 0x8000000000000000

abbrev pub mmask_type : ℕ
mmask_type = 0xc000000000000000

abbrev pub mmask_count : ℕ
mmask_count = 0x1f

abbrev pub sz_empty_val : ℕ
sz_empty_val = 0x1e

abbrev pub sz_empty_array : ℕ
sz_empty_array = 0x1f

-- `meterdata`: `NULL`, cells of eight bytes (`u64` and `frac`), or texts of 128 bytes (`str`)
pub data MeterData : Type 0 where
  no_data : MeterData
  words : List ℕ → MeterData
  texts : List (List ℕ) → MeterData

-- `meter`, less its links and its host
pub record Meter : Type 0 where
  pub id : ℕ
  pub count : ℕ
  pub d : MeterData
  pub lastmodified : ℕ

abbrev pub alloc : Meter
alloc = record { id = 0; count = sz_empty_val; d = no_data; lastmodified = 0 }

abbrev pub type_of : Meter → ℕ
type_of m = bit_and m.id mmask_type

-- `count ? count : 1`
abbrev pub at_least_one : ℕ → ℕ
at_least_one count = if count == 0 then 1 else count

abbrev pub all_zero : List ℕ → Bool
all_zero [] = true
all_zero (w ∷ ws) = (w == 0) && all_zero ws

abbrev all_blank : List (List ℕ) → Bool
all_blank [] = true
all_blank ([] ∷ ts) = all_blank ts
all_blank ((_ ∷ _) ∷ ts) = false

-- The block as cells, and as texts; one that holds zeroes only may be taken for either.
unfoldable pub as_words : MeterData → Option (List ℕ)
as_words no_data = none
as_words (words ws) = some ws
as_words (texts ts) = if all_blank ts then some (replicate (length ts * 16) 0) else none

unfoldable pub as_texts : MeterData → Option (List (List ℕ))
as_texts no_data = none
as_texts (words ws) = if all_zero ws then some (replicate (length ws / 16) []) else none
as_texts (texts ts) = some ts

-- an element of a block, and a write to one
unfoldable pub element {ℓ} : {A : Type ℓ} → List A → ℕ → Option A
element [] pos = none
element (x ∷ xs) zero = some x
element (x ∷ xs) (suc pos) = element xs pos

unfoldable pub put {ℓ} : {A : Type ℓ} → List A → ℕ → A → Option (List A)
put xs pos v = if ltb pos (length xs) then some (set xs pos v) else none

-- The test of the getters and setters: the position is in range and the meter has the type.
abbrev pub is_at : Meter → ℕ → ℕ → Bool
is_at m type pos = ltb pos (at_least_one m.count) && (type_of m == type)

unfoldable pub get_uint : Meter → ℕ → Option ℕ
get_uint m pos =
    if leb sz_empty_val m.count
    then some 0
    else if is_at m mtype_int pos
    then (do ws ← as_words m.d; element ws pos)
    else some 0

unfoldable pub get_frac : Meter → ℕ → Option ℕ
get_frac m pos =
    if leb sz_empty_val m.count
    then some 0
    else if is_at m mtype_frac pos
    then (do ws ← as_words m.d; element ws pos)
    else some 0

abbrev pub is_null : MeterData → Bool
is_null no_data = true
is_null (words _) = false
is_null (texts _) = false

unfoldable pub get_str : Meter → ℕ → Option (List ℕ)
get_str m pos =
    if leb sz_empty_val m.count || is_null m.d
    then some []
    else if is_at m mtype_str pos
    then (do ts ← as_texts m.d; element ts pos)
    else some []

-- What `meter_setcount` allocates, by the type that the meter has at the call.
abbrev pub block : ℕ → ℕ → MeterData
block type cnt =
    if type == mtype_int
    then words (replicate cnt 0)
    else if type == mtype_frac
    then words (replicate cnt 0)
    else if type == mtype_str
    then texts (replicate cnt [])
    else no_data

-- `none` where the assertion fails
pub setcount : ℕ → Meter → ℕ → Option Meter
setcount now m count =
    let cnt = at_least_one count in
    let counted = record m { count = count; lastmodified = now } in
    let known = (type_of m == mtype_int) || (type_of m == mtype_frac) || (type_of m == mtype_str) in
    if ltb sz_empty_array cnt
    then none
    else if leb sz_empty_val cnt
    then some (record counted { d = no_data })
    else some (record counted {
      d = block (type_of m) cnt;
      count = if known then count else sz_empty_val;
    })

pub set_empty : ℕ → Meter → Option Meter
set_empty now m = setcount now m sz_empty_val

pub set_empty_array : ℕ → Meter → Option Meter
set_empty_array now m = setcount now m sz_empty_array

pub set_uint : ℕ → Meter → ℕ → ℕ → Option Meter
set_uint now m pos val =
    if leb sz_empty_val m.count
    then some m
    else if is_at m mtype_int pos
    then (do
      ws ← as_words m.d
      ws' ← put ws pos val
      some (record m { lastmodified = now; d = words ws' }))
    else some m

pub set_frac : ℕ → Meter → ℕ → ℕ → Option Meter
set_frac now m pos val =
    if leb sz_empty_val m.count
    then some m
    else if is_at m mtype_frac pos
    then (do
      ws ← as_words m.d
      ws' ← put ws pos val
      some (record m { lastmodified = now; d = words ws' }))
    else some m

-- `strncpy` of 127 characters
pub set_str : ℕ → Meter → ℕ → List ℕ → Option Meter
set_str now m pos val =
    if leb sz_empty_val m.count
    then some m
    else if is_at m mtype_str pos
    then (do
      ts ← as_texts m.d
      ts' ← put ts pos (take 127 val)
      some (record m { lastmodified = now; d = texts ts' }))
    else some m
