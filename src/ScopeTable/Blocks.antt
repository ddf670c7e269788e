-- ===== src/ScopeTable/Blocks.antt =====
-- What `AutoScope` of src/scope_table.hpp brackets: the calls on the table between its
-- constructor and its destructor, with further scopes nested in them.
use pars_c.Common.{ℕ, ◌<◌, Bool, List, Bytes, ◌≡◌, sym, ◌∙◌}
use mathlib.Core.Path.{subst}
use pars_c.Outcome.{Outcome, ok, ok-injective}
use pars_c.ScopeTable.{
  ScopeData, ScopeTable, unlocked_level, go_down, go_up, add_import, add_to_scope,
}
use pars_c.ScopeTable.Frames.{
  Shows, Reaches, go_down-Reaches, go_up-Reaches, add_import-Reaches, add_to_scope-Reaches,
}

module _ {Node : Type 0} where
  pub data Block : ScopeTable Node → ScopeTable Node → Type 0 where
    done : {t : ScopeTable Node} → Block t t
    add :
        {t t1 t' : ScopeTable Node} (name : Bytes) (node : Node) (is_public : Bool)
        → add_to_scope name node is_public unlocked_level t ≡ ok t1
        → Block t1 t'
        → Block t t'
    imports :
        {t t1 t' : ScopeTable Node} (file_id : ℕ)
        → add_import file_id t ≡ ok t1
        → Block t1 t'
        → Block t t'
    nested :
        {t t1 t2 t3 t' : ScopeTable Node}
        → t.level < 65535
        → go_down t ≡ ok t1
        → Block t1 t2
        → go_up t2 ≡ ok t3
        → Block t3 t'
        → Block t t'

  reached :
      {call : Outcome (ScopeTable Node)} {t' : ScopeTable Node} {below : List (ScopeData Node)}
      {top : ScopeData Node}
      → Reaches call below top
      → call ≡ ok t'
      → Shows t' below top
  reached {below} {top} r h =
      subst (λ t. Shows t below top) (ok-injective (sym r.result ∙ h)) r.shows

  -- The scopes below the current one stay as they are.
  pub Block-Shows :
      {t t' : ScopeTable Node} {below : List (ScopeData Node)} {top : ScopeData Node}
      → Shows t below top
      → Block t t'
      → (top' : ScopeData Node) × Shows t' below top'
  Block-Shows {top} v done = (top, v)
  Block-Shows {t} v (add name node is_public h b) =
      Block-Shows (reached (add_to_scope-Reaches t name node is_public v) h) b
  Block-Shows {t} v (imports file_id h b) =
      Block-Shows (reached (add_import-Reaches t file_id v) h) b
  Block-Shows {t} v (nested {t2} deep down inner up b) =
      let (top', v2) = Block-Shows (reached (go_down-Reaches t v deep) down) inner in
      Block-Shows (reached (go_up-Reaches t2 v2) up) b

  -- A scope leaves the scopes around it as it found them: after `go_down` and a block of calls,
  -- whatever it adds to the current scope, imports or nests, `go_up` succeeds, and the stack is the
  -- one in front of `go_down`. It needs fewer than 65535 levels.
  pub Block-restores :
      (t t1 t2 : ScopeTable Node) {below : List (ScopeData Node)} {top : ScopeData Node}
      → Shows t below top
      → t.level < 65535
      → go_down t ≡ ok t1
      → Block t1 t2
      → Reaches (go_up t2) below top
  Block-restores t t1 t2 v deep down inner =
      let (top', v2) = Block-Shows (reached (go_down-Reaches t v deep) down) inner in
      go_up-Reaches t2 v2
