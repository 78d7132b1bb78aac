-- ===== src/Var/Tests.antt =====
-- A dictionary of three children, one of them without a hash code.
use opticon.Prelude.{ℕ, ◌≡◌, refl, none, some, List, [], ◌∷◌, arith, inl, ◌==◌, if◌then◌else◌}
use opticon.Prelude.Text.{codes, same}
use opticon.Links.{null, ends, Heap, node}
use opticon.Links.Cells.{Cells}
use opticon.Links.Unlink.{IsList}
use opticon.Links.Walk.{find_cell}
use opticon.Var.{Var, VarLink, var_int, var_dict, at, minus, find_index, delete_key}
use opticon.Var.Position.{IsArray, HasFound, find_index_lem}
use opticon.Var.Key.{HasKey, AllHashed, has_key, find_key_lem}
use opticon.Var.Deleting.{delete_key-dangles}

abbrev nothing : VarLink
nothing = record { children = ends null null; count = 0; cachepos = none; cachenode = null }

abbrev counter : List ℕ → Var
counter key = record {
  id = key;
  hashcode = 0;
  type = var_int;
  arr = nothing;
  generation = 1;
  lastmodified = 1;
  firstseen = 1;
}

abbrev memory : Heap Var
memory = λ a.
    if a == 0x10
    then some (node null 0x20 (counter (codes "cpu")))
    else if a == 0x20
    then some (node 0x10 0x30 (counter (codes "mem")))
    else if a == 0x30
    then some (node 0x20 null (counter (codes "net")))
    else none

-- the second child was looked up last
abbrev table : Var
table = record {
  id = [];
  hashcode = 0;
  type = var_dict;
  arr = record { children = ends 0x10 0x30; count = 3; cachepos = some 1; cachenode = 0x20 };
  generation = 1;
  lastmodified = 1;
  firstseen = 1;
}

abbrev cells : Cells Var
cells =
    (0x10, counter (codes "cpu"))
    ∷ (0x20, counter (codes "mem"))
    ∷ (0x30, counter (codes "net"))
    ∷ []

cells-IsList : IsList memory table.arr.children cells
cells-IsList = record {
  first = refl;
  last = refl;
  nodes = (ground arith, refl, (ground arith, refl, (ground arith, refl, tt)));
  once = (refl, (refl, (refl, tt)));
}

table-IsArray : IsArray memory table.arr cells
table-IsArray = record { list = cells-IsList; counted = refl; cache = (omega arith, refl) }

cells-AllHashed : AllHashed 7 cells
cells-AllHashed = (inl refl, (inl refl, (inl refl, tt)))

-- The index -1 finds nothing.
minus-find_index : find_index memory table (minus 1) ≡ some (null, table)
unfolding find_index
minus-find_index = refl

mem-find_cell : find_cell (has_key (codes "mem")) cells ≡ 0x20
unfolding same
mem-find_cell = refl

find_index_lem_example : HasFound memory table (at 2) cells
find_index_lem_example = find_index_lem memory table (at 2) cells refl table-IsArray

find_key_lem_example : HasKey memory table 7 4 (codes "net") cells
find_key_lem_example =
    find_key_lem memory table 7 4 (codes "net") cells refl cells-IsList cells-AllHashed
      (omega arith)

delete_key-dangles_example :
    (self' : Var) × (h' : Heap Var) × (delete_key 4 memory 7 table (codes "mem") ≡ some (self', h'))
    × (h' 0x20 ≡ none)
    × (find_index h' self' (at 1) ≡ some (0x20, self'))
delete_key-dangles_example =
    delete_key-dangles memory table 7 4 (codes "mem") ((0x10, counter (codes "cpu")) ∷ []) 0x20
      (counter (codes "mem")) (0x30, counter (codes "net")) [] refl table-IsArray refl
      cells-AllHashed mem-find_cell (omega arith)
