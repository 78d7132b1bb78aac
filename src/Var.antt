-- ===== src/Var.antt =====
-- src/libopticon/var.c: the children of an array or a dictionary, their lookup by position, which
-- keeps the last answer, and by key, which compares hash codes first. The children are a list of
-- Links; a node is given by its fields, and its children by the heap. A position is not above
-- 2 ^ 31.
pub mod Position
pub mod Key
pub mod Children
pub mod Deleting
mod Tests
use opticon.Prelude.{
  ℕ, zero, suc, ◌+◌, ◌-◌, Bool, true, false, ◌&&◌, ◌||◌, not, Option, none, some, ◌>>=◌, List, [],
  ◌∷◌, ltb, leb, ◌==◌, if◌then◌else◌,
}
use opticon.Prelude.Text.{same}
use opticon.Links.{
  Ptr, null, Ends, ends, Heap, load, set_item, update, node, set_next, set_prev, unlink,
}
use opticon.Hash.{hash_token}

pub data VarType : Type 0 where
  var_null : VarType
  var_int : VarType
  var_double : VarType
  var_str : VarType
  var_dict : VarType
  var_array : VarType

-- `varlink`; `cachepos` is `none` for -1.
pub record VarLink : Type 0 where
  pub children : Ends
  pub count : ℕ
  pub cachepos : Option ℕ
  pub cachenode : Ptr

-- `var`, less its links; the union `value` by its member `arr`
pub record Var : Type 0 where
  pub id : List ℕ
  pub hashcode : ℕ
  pub type : VarType
  pub arr : VarLink
  pub generation : ℕ
  pub lastmodified : ℕ
  pub firstseen : ℕ

abbrev pub is_dict : VarType → Bool
is_dict var_dict = true
is_dict _ = false

abbrev pub is_null_type : VarType → Bool
is_null_type var_null = true
is_null_type _ = false

abbrev pub is_array_or_dict : VarType → Bool
is_array_or_dict var_array = true
is_array_or_dict var_dict = true
is_array_or_dict _ = false

-- An `int` that is a position, or one below 0 by its negation.
pub data Index : Type 0 where
  at : ℕ → Index
  minus : ℕ → Index

abbrev pub absolute : ℕ → Index → ℕ
absolute count (at i) = i
absolute count (minus k) = count + k

abbrev pub is_minus_one : Index → Bool
is_minus_one (at i) = false
is_minus_one (minus k) = k == 1

-- whether the cache stands at a position
abbrev pub is_cached : VarLink → ℕ → Bool
is_cached arr i = elim arr.cachepos [ none ↦ false | some c ↦ c == i ]

-- What is found next to the cache, `NULL` where nothing is tried.
unfoldable pub near_cache : Heap Var → VarLink → Index → ℕ → Option Ptr
near_cache h arr index absindex =
    let previous : Bool = elim absindex [ zero ↦ false | suc i ↦ is_cached arr i ] in
    if is_minus_one index
    then some arr.children.last
    else if is_cached arr (absindex + 1)
    then (do n ← load h arr.cachenode; some n.prev)
    else if previous
    then (do n ← load h arr.cachenode; some n.next)
    else some null

-- `for (i = 0; res && i < absindex; ++i) res = res->next`
unfoldable pub walk : Heap Var → ℕ → Ptr → Option Ptr
walk h zero res = some res
walk h (suc left) res = if res == null then some null else do n ← load h res; walk h left n.next

unfoldable pub search : Heap Var → VarLink → Index → ℕ → Option Ptr
search h arr index absindex = do
  res ← near_cache h arr index absindex
  if res == null then walk h absindex arr.children.first else some res

-- `var_find_index`: the child, and the node with its cache
unfoldable pub find_index : Heap Var → Var → Index → Option (Ptr × Var)
find_index h self index =
    let absindex = absolute self.arr.count index in
    if not (is_array_or_dict self.type)
    then some (null, self)
    else if leb self.arr.count absindex
    then some (null, self)
    else if is_cached self.arr absindex
    then some (self.arr.cachenode, self)
    else (do
      res ← search h self.arr index absindex
      if res == null
          then some (null, self)
          else some (
            res,
            record self { arr = record self.arr { cachepos = some absindex; cachenode = res } },
          ))

-- A node of `var_find_key` that the key is not: its hash code is filled in where it has none.
abbrev pub hashed : ℕ → Var → Var
hashed seed v = if v.hashcode == 0 then record v { hashcode = hash_token seed v.id } else v

unfoldable pub find_loop : ℕ → Heap Var → ℕ → List ℕ → Ptr → Option (Ptr × Heap Var)
find_loop zero h seed key c = none
find_loop (suc fuel) h seed key c = if c == null then some (null, h) else do
  n ← load h c
  let likely = (n.item.hashcode == 0) || (n.item.hashcode == hash_token seed key)
  if likely && same n.item.id key
      then some (c, h)
      else if likely
      then (do h' ← set_item h c (hashed seed n.item); find_loop fuel h' seed key n.next)
      else find_loop fuel h seed key n.next

-- `var_find_key`; a node without a value becomes an empty dictionary.
unfoldable pub find_key : ℕ → Heap Var → ℕ → Var → List ℕ → Option (Ptr × Var × Heap Var)
find_key fuel h seed self key =
    if is_null_type self.type
    then some (
      null,
      record self {
        type = var_dict;
        arr = record self.arr { children = ends null null; count = 0; cachepos = none };
      },
      h,
    )
    else if not (is_dict self.type)
    then some (null, self, h)
    else do (c, h') ← find_loop fuel h seed key self.arr.children.first; some (c, self, h')

-- The end of `var_link`: a new child behind the others; the cache is left.
unfoldable pub link_child : Heap Var → VarLink → Ptr → Var → Option (Heap Var × VarLink)
link_child h arr p v = do
  let h1 = update h p (some (node arr.children.last null v))
  if arr.children.last == null
      then some (h1, record arr { children = ends p p; count = arr.count + 1 })
      else (do
        h2 ← set_next h1 arr.children.last p
        some (h2, record arr { children = ends arr.children.first p; count = arr.count + 1 }))

-- `var_free` of a child, which holds no children itself
unfoldable pub free_child : Heap Var → VarLink → Ptr → Option (Heap Var × VarLink)
free_child h arr p = do
  (h', l) ← unlink h arr.children p
  some (h', record arr { children = l; count = arr.count - 1; cachepos = none })

-- The writes of `var_delete_key`: to the neighbours or the ends, and to the node, which is freed.
-- It is the cache of the node that is reset.
unfoldable pub take_out : Heap Var → VarLink → Ptr → Option (Heap Var × VarLink)
take_out h arr p = do
  n ← load h p
  h1 ← if n.prev == null then some h else set_next h n.prev n.next
  h2 ← if n.next == null then some h1 else set_prev h1 n.next n.prev
  let first = if n.prev == null then n.next else arr.children.first
  let last = if n.next == null then n.prev else arr.children.last
  some (update h2 p none, record arr { children = ends first last; count = arr.count - 1 })

unfoldable pub delete_key : ℕ → Heap Var → ℕ → Var → List ℕ → Option (Var × Heap Var)
delete_key fuel h seed self key = if not (is_dict self.type) then some (self, h) else do
  (c, self', h') ← find_key fuel h seed self key
  if c == null
      then some (self', h')
      else (do (h'', arr) ← take_out h' self'.arr c; some (record self' { arr = arr }, h''))
