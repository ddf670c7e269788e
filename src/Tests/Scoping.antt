-- ===== src/Tests/Scoping.antt =====
-- Witnesses of the theorems on the table of scopes. The nodes are numbers.
use pars_c.Common.{bytes_eq, ℕ, true, false, some, List, [], ◌∷◌, Bytes, ◌≡◌, refl, arith}
use pars_c.Outcome.{ok, ◌>>=◌}
use pars_c.Lexer.Keywords.{codes}
use pars_c.ScopeTable.{
  ScopeData, ScopeTable, GlobalSymbol, when_imported, no_data, unlocked_level, go_down, go_up,
  add_to_scope, find_symbol, find_local_symbol, get_scope_data, put_scope_data, get_scope,
  declare_if, find_global_symbol, first_available,
}
use pars_c.ScopeTable.Frames.{Shows, Reaches, go_up-Reaches, add_to_scope-Reaches}
use pars_c.ScopeTable.Search.{find_symbol-first, find_local_symbol-first}
use pars_c.ScopeTable.Blocks.{Block, Block-restores}

abbrev outer : ScopeData ℕ
outer = record { imports = 3 ∷ []; scope = (codes "x", 10) ∷ []; has_return = false }

abbrev inner : ScopeData ℕ
inner = record { imports = []; scope = (codes "y", 30) ∷ (codes "x", 20) ∷ []; has_return = true }

abbrev used : ScopeData ℕ
used = record { imports = []; scope = []; has_return = true }

abbrev globals : List (Bytes × List (GlobalSymbol ℕ))
globals =
    (
      codes "g",
      record { node = 40; availability = when_imported; file_id = 5 }
          ∷ record { node = 50; availability = when_imported; file_id = 3 }
          ∷ [],
    )
    ∷ []

abbrev table : ScopeTable ℕ
table = record {
  file_id = 1;
  level = 1;
  locked_level = 65535;
  table = outer ∷ inner ∷ used ∷ [];
  modules_found = 9 ∷ [];
  global_symbols = globals;
}

table-Shows : Shows table (outer ∷ []) inner
table-Shows = record {
  above = used ∷ [];
  table_is = refl;
  level_is = refl;
  blank = ((refl, refl), tt);
}

go_up-Reaches_example : Reaches (go_up table) [] outer
go_up-Reaches_example = go_up-Reaches table {below = []} table-Shows

add_to_scope-Reaches_example :
    Reaches
      (add_to_scope (codes "z") 60 true unlocked_level table)
      (outer ∷ [])
      (record inner { scope = (codes "z", 60) ∷ inner.scope })
unfolding bytes_eq
add_to_scope-Reaches_example = add_to_scope-Reaches table (codes "z") 60 true table-Shows

find_local_symbol-first_example :
    find_local_symbol (codes "x") table ≡ ok (some 10, record table { modules_found = 3 ∷ [] })
unfolding bytes_eq
find_local_symbol-first_example = find_local_symbol-first (codes "x") table table-Shows

find_symbol-first_example :
    (find_symbol (codes "g") table >>= λ (found, t). ok found) ≡ ok (some 50)
unfolding bytes_eq find_global_symbol first_available
find_symbol-first_example = find_symbol-first (codes "g") table table-Shows

abbrev down : ScopeTable ℕ
down = record table { level = 2; table = outer ∷ inner ∷ no_data ∷ [] }

abbrev added : ScopeTable ℕ
added = record down { table = outer ∷ inner ∷ record no_data { scope = (codes "x", 70) ∷ [] } ∷ [] }

added-Block : Block down added
unfolding add_to_scope get_scope put_scope_data get_scope_data declare_if bytes_eq
added-Block = Block.add (codes "x") 70 false refl Block.done

Block-restores_example : Reaches (go_up added) (outer ∷ []) inner
unfolding go_down put_scope_data get_scope_data
Block-restores_example = Block-restores table down added table-Shows (omega arith) refl added-Block
