-- ===== src/ScopeTable.antt =====
-- The scopes of src/scope_table.cpp and the global symbols of src/module_manager.cpp. A place
-- that is out of the bounds of the table is `undefined`. The null pointer is `none` where a node
-- is returned; the nodes that are put into a scope are no null pointers.
pub mod Frames
pub mod Blocks
pub mod Search
use pars_c.Common.{
  ℕ, zero, suc, ◌+◌, ◌-◌, Bool, true, false, not, ◌&&◌, ◌||◌, Option, none, some, List, [], ◌∷◌,
  ◌++◌, Bytes, length, get_elem?, set, replicate, ltb, leb, ◌==◌, if◌then◌else◌, lookup, emplace,
  insert,
}
use pars_c.TextReader.{u16}
use pars_c.Outcome.{Outcome, ok, undefined, ◌>>=◌}

-- src/module_manager.hpp
pub data GlobalSymbolAvailability : Type 0 where
  always : GlobalSymbolAvailability
  when_imported : GlobalSymbolAvailability

pub record GlobalSymbol (Node : Type 0) : Type 0 where
  pub node : Node
  pub availability : GlobalSymbolAvailability
  pub file_id : ℕ

-- `has_return` stands for the one bit of `ScopeFlags`.
pub record ScopeData (Node : Type 0) : Type 0 where
  pub imports : List ℕ
  pub scope : List (Bytes × Node)
  pub has_return : Bool

-- `m_modules_found`, which all tables share, and the table `g_global_symbols` are threaded along.
pub record ScopeTable (Node : Type 0) : Type 0 where
  pub file_id : ℕ
  pub level : ℕ
  pub locked_level : ℕ
  pub table : List (ScopeData Node)
  pub modules_found : List ℕ
  pub global_symbols : List (Bytes × List (GlobalSymbol Node))

-- `UINT16_MAX`
abbrev pub unlocked_level : ℕ
unlocked_level = 65535

abbrev pub contains : ℕ → List ℕ → Bool
contains x [] = false
contains x (y ∷ ys) = x == y || contains x ys

abbrev pub is_always : GlobalSymbolAvailability → Bool
is_always always = true
is_always when_imported = false

module _ {Node : Type 0} where
  abbrev pub no_data : ScopeData Node
  no_data = record { imports = []; scope = []; has_return = false }

  unfoldable pub new_table : List ℕ → List (Bytes × List (GlobalSymbol Node)) → ScopeTable Node
  new_table modules_found global_symbols = record {
    file_id = 0;
    level = 0;
    locked_level = unlocked_level;
    table = replicate 6 no_data;
    modules_found = modules_found;
    global_symbols = global_symbols;
  }

  unfoldable pub set_file_id : ℕ → ScopeTable Node → ScopeTable Node
  set_file_id file_id t = record t { file_id = file_id }

  unfoldable pub set_lock : ℕ → ScopeTable Node → ScopeTable Node
  set_lock level t = record t { locked_level = level }

  abbrev pub data_or : Option (ScopeData Node) → Outcome (ScopeData Node)
  data_or none = undefined
  data_or (some d) = ok d

  unfoldable pub get_scope_data : ℕ → ScopeTable Node → Outcome (ScopeData Node)
  get_scope_data level t = data_or (get_elem? t.table level)

  -- a write through the reference that `get_scope_data` returns
  unfoldable pub put_scope_data :
      ℕ → (ScopeData Node → ScopeData Node) → ScopeTable Node → Outcome (ScopeTable Node)
  put_scope_data level change t =
      get_scope_data level t >>= λ d. ok (record t { table = set t.table level (change d) })

  unfoldable pub get_lower_flags : ScopeTable Node → Outcome Bool
  get_lower_flags t = get_scope_data (t.level + 1) t >>= λ d. ok d.has_return

  unfoldable pub get_current_flags : ScopeTable Node → Outcome Bool
  get_current_flags t = get_scope_data t.level t >>= λ d. ok d.has_return

  unfoldable pub go_down : ScopeTable Node → Outcome (ScopeTable Node)
  go_down t =
      let level = u16 (t.level + 1) in
      let table = if leb (length t.table) level then t.table ++ no_data ∷ [] else t.table in
      put_scope_data level (λ d. record d { has_return = false })
        (record t { level = level; table = table })

  -- The test is on the argument, the write at `m_level`.
  unfoldable pub clear_level : ℕ → ScopeTable Node → Outcome (ScopeTable Node)
  clear_level level t =
      if ltb level (length t.table)
      then put_scope_data t.level (λ d. record d { imports = []; scope = [] }) t
      else ok t

  unfoldable pub go_up : ScopeTable Node → Outcome (ScopeTable Node)
  go_up t =
      if t.level == 0
      then ok t
      else (clear_level t.level t >>= λ t'. ok (record t' { level = t'.level - 1 }))

  unfoldable pub add_import : ℕ → ScopeTable Node → Outcome (ScopeTable Node)
  add_import file_id t =
      put_scope_data t.level (λ d. record d { imports = d.imports ++ file_id ∷ [] }) t

  -- The place of the scope, and the table, which grows if the place is behind its end.
  unfoldable pub get_scope : ℕ → ScopeTable Node → ℕ × ScopeTable Node
  get_scope level t =
      if not (level == unlocked_level)
      then (
        level,
        if leb (length t.table) level
            then record t { table = t.table ++ replicate level no_data }
            else t,
      )
      else (t.level, t)

  abbrev pub or_empty : Option (List (GlobalSymbol Node)) → List (GlobalSymbol Node)
  or_empty none = []
  or_empty (some symbols) = symbols

  unfoldable pub find_global_symbol : Bytes → ScopeTable Node → List (GlobalSymbol Node)
  find_global_symbol name t = or_empty (lookup name t.global_symbols)

  unfoldable pub declare_global_symbol :
      Bytes → GlobalSymbol Node → ScopeTable Node → ScopeTable Node
  declare_global_symbol name symbol t = record t {
    global_symbols = insert name (find_global_symbol name t ++ symbol ∷ []) t.global_symbols;
  }

  unfoldable pub declare_if : Bool → Bytes → Node → ScopeTable Node → ScopeTable Node
  declare_if false name node t = t
  declare_if true name node t =
      declare_global_symbol name
        (record { node = node; availability = when_imported; file_id = t.file_id }) t

  unfoldable pub add_to_scope :
      Bytes → Node → Bool → ℕ → ScopeTable Node → Outcome (ScopeTable Node)
  add_to_scope name node is_public level t =
      if ltb t.locked_level t.level && not (t.locked_level == unlocked_level)
      then ok t
      else (let (place, t') = get_scope level t in
          put_scope_data place (λ d. record d { scope = emplace name node d.scope }) t' >>= λ t''.
          ok (declare_if (is_public && t''.level == 0) name node t''))

  abbrev pub found_or :
      Option Node
      → ScopeTable Node
      → Outcome (Option Node × ScopeTable Node)
      → Outcome (Option Node × ScopeTable Node)
  found_or (some node) t later = ok (some node, t)
  found_or none t later = later

  abbrev is_none : Option Node → Bool
  is_none none = true
  is_none (some node) = false

  -- The loop of the `find` functions from the scope `i` on, for `count` scopes.
  unfoldable pub find_from :
      ℕ → ℕ → Bytes → ScopeTable Node → Outcome (Option Node × ScopeTable Node)
  find_from zero i name t = ok (none, t)
  find_from (suc count) i name t = get_scope_data i t >>= λ d.
      let t' = record t { modules_found = d.imports ++ t.modules_found } in
      found_or (lookup name d.scope) t' (find_from count (i + 1) name t')

  unfoldable pub find_local_symbol :
      Bytes → ScopeTable Node → Outcome (Option Node × ScopeTable Node)
  find_local_symbol name t = find_from (t.level + 1) 0 name (record t { modules_found = [] })

  unfoldable pub first_available : List (GlobalSymbol Node) → List ℕ → Option Node
  first_available [] found = none
  first_available (symbol ∷ symbols) found =
      if is_always symbol.availability || contains symbol.file_id found
      then some symbol.node
      else first_available symbols found

  unfoldable pub find_behind :
      Bytes → Option Node × ScopeTable Node → Outcome (Option Node × ScopeTable Node)
  find_behind name (some node, t) = ok (some node, t)
  find_behind name (none, t) = find_from (t.level + 1) 0 name t >>= λ (found, t').
      found_or found t' (ok (first_available (find_global_symbol name t') t'.modules_found, t'))

  unfoldable pub find_symbol : Bytes → ScopeTable Node → Outcome (Option Node × ScopeTable Node)
  find_symbol name t = find_local_symbol name t >>= find_behind name

  unfoldable pub has_symbol : Bytes → ScopeTable Node → Outcome (Bool × ScopeTable Node)
  has_symbol name t = find_symbol name t >>= λ (found, t'). ok (not (is_none found), t')
