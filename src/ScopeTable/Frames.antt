-- ===== src/ScopeTable/Frames.antt =====
-- The table of src/scope_table.cpp as a stack: the scopes below the current one, the current one,
-- and behind them only scopes that are empty.
use pars_c.Common.{
  ℕ, ◌+◌, ◌-◌, ◌<◌, Bool, true, false, not, ◌&&◌, some, List, [], ◌∷◌, ◌++◌, append_assoc, Bytes,
  length, length-append, get_elem?, set, leb, ltb, ◌==◌, emplace, ◌≡◌, refl, sym, ap, ap₂, ◌∙◌,
  arith, Bool-cases, inl, inr, if◌then◌else◌,
}
use mathlib.Core.Path.{subst}
use pars_c.Outcome.{Outcome, ok}
use pars_c.ScopeTable.{
  u16, ScopeData, ScopeTable, no_data, unlocked_level, get_scope_data, put_scope_data, go_down,
  go_up, clear_level, add_import, get_scope, add_to_scope, declare_if, declare_global_symbol,
}

module _ {ℓ} {A : Type ℓ} where
  pub get_elem?-append :
      (xs : List A) (y : A) (ys : List A) → get_elem? (xs ++ y ∷ ys) (length xs) ≡ some y
  get_elem?-append [] y ys = refl
  get_elem?-append (x ∷ xs) y ys = get_elem?-append xs y ys

  pub set-append :
      (xs : List A) (y z : A) (ys : List A) → set (xs ++ y ∷ ys) (length xs) z ≡ xs ++ z ∷ ys
  set-append [] y z ys = refl
  set-append (x ∷ xs) y z ys = ap (◌∷◌ x) (set-append xs y z ys)

u16_next : (n : ℕ) → n < 65535 → u16 (n + 1) ≡ n + 1
u16_next n h = omega arith

module _ {Node : Type 0} where
  -- No symbol and no import.
  abbrev pub IsBlank : ScopeData Node → Type 0
  IsBlank d = (d.imports ≡ []) × (d.scope ≡ [])

  abbrev pub AllBlank : List (ScopeData Node) → Type 0
  AllBlank [] = Unit
  AllBlank (d ∷ ds) = IsBlank d × AllBlank ds

  pub record Shows (t : ScopeTable Node) (below : List (ScopeData Node)) (top : ScopeData Node)
      : Type 0 where
    pub above : List (ScopeData Node)
    pub table_is : t.table ≡ below ++ top ∷ above
    pub level_is : t.level ≡ length below
    pub blank : AllBlank above

  -- The call succeeds, and the stack is then as told.
  pub record Reaches (call : Outcome (ScopeTable Node)) (below : List (ScopeData Node))
      (top : ScopeData Node) : Type 0 where
    pub after : ScopeTable Node
    pub result : call ≡ ok after
    pub shows : Shows after below top

  -- A write at the current scope.
  pub put_top :
      (t : ScopeTable Node) {below : List (ScopeData Node)} {top : ScopeData Node}
      (change : ScopeData Node → ScopeData Node)
      → Shows t below top
      → Reaches (put_scope_data t.level change t) below (change top)
  unfolding put_scope_data get_scope_data
  put_top t {below} {top} change v = record {
    after = record t { table = below ++ change top ∷ v.above };
    result =
        rw
          (
            v.table_is,
            v.level_is,
            get_elem?-append below top v.above,
            set-append below top (change top) v.above,
          )
          refl;
    shows = record { above = v.above; table_is = refl; level_is = v.level_is; blank = v.blank };
  }

  blank_data : (d : ScopeData Node) → IsBlank d → record d { has_return = false } ≡ no_data
  blank_data d b = ap₂ (λ i s. record { imports = i; scope = s; has_return = false }) b.0 b.1

  grown :
      (below : List (ScopeData Node)) (d : ScopeData Node)
      → length (below ++ d ∷ []) ≡ length below + 1
  grown below d = length-append below (d ∷ [])

  go_down-above :
      (t : ScopeTable Node) (below : List (ScopeData Node)) (top : ScopeData Node)
      (above : List (ScopeData Node))
      → t.table ≡ below ++ top ∷ above
      → t.level ≡ length below
      → AllBlank above
      → t.level < 65535
      → Reaches (go_down t) (below ++ top ∷ []) no_data
  unfolding go_down
  go_down-above t below top [] e l b h =
      let level = u16 (t.level + 1) in
      let at_end : leb (length t.table) level ≡ true =
        rw (e, l) (ground (arith, length-append below (top ∷ []), u16_next t.level h)) in
      let t1 = record t { level = level; table = t.table ++ no_data ∷ [] } in
      let v1 : Shows t1 (below ++ top ∷ []) no_data = record {
        above = [];
        table_is = ap (λ x. x ++ no_data ∷ []) e;
        level_is = omega (arith, grown below top, u16_next t.level h);
        blank = tt;
      } in
      rw at_end (put_top t1 (λ d. record d { has_return = false }) v1)
  go_down-above t below top (d ∷ above) e l b h =
      let level = u16 (t.level + 1) in
      let before : leb (length t.table) level ≡ false =
        rw (e, l) (ground (arith, length-append below (top ∷ d ∷ above), u16_next t.level h)) in
      let t1 = record t { level = level } in
      let v1 : Shows t1 (below ++ top ∷ []) d = record {
        above = above;
        table_is = e ∙ sym (append_assoc below (top ∷ []) (d ∷ above));
        level_is = omega (arith, grown below top, u16_next t.level h);
        blank = b.1;
      } in
      rw before (
        subst (Reaches _ _) (blank_data d b.0)
          (put_top t1 (λ d. record d { has_return = false }) v1))

  -- `go_down` succeeds and puts an empty scope on the stack, whether it is new or was used before,
  -- if there are fewer than 65535 levels.
  pub go_down-Reaches :
      (t : ScopeTable Node) {below : List (ScopeData Node)} {top : ScopeData Node}
      → Shows t below top
      → t.level < 65535
      → Reaches (go_down t) (below ++ top ∷ []) no_data
  go_down-Reaches t v h = go_down-above t _ _ v.above v.table_is v.level_is v.blank h

  -- `go_up` succeeds and takes the current scope off, with its symbols and imports, if there is one
  -- below it.
  pub go_up-Reaches :
      (t : ScopeTable Node) {below : List (ScopeData Node)} {outer top : ScopeData Node}
      → Shows t (below ++ outer ∷ []) top
      → Reaches (go_up t) below outer
  unfolding go_up clear_level
  go_up-Reaches t {below} {outer} {top} v =
      let put = put_top t (λ d. record d { imports = []; scope = [] }) v in
      let inner : (t.level == 0) ≡ false = rw v.level_is (ground (arith, grown below outer)) in
      let within : ltb t.level (length t.table) ≡ true =
        rw (v.table_is, v.level_is)
          (ground (arith, length-append (below ++ outer ∷ []) (top ∷ v.above))) in
      record {
        after = record put.after { level = put.after.level - 1 };
        result = rw (inner, within, put.result) refl;
        shows = record {
          above = record top { imports = []; scope = [] } ∷ put.shows.above;
          table_is = put.shows.table_is ∙ append_assoc below (outer ∷ []) _;
          level_is = omega (arith, put.shows.level_is, grown below outer);
          blank = ((refl, refl), put.shows.blank);
        };
      }

  -- `go_up` on the outermost scope changes nothing.
  pub go_up-outermost :
      (t : ScopeTable Node) {top : ScopeData Node} → Shows t [] top → go_up t ≡ ok t
  unfolding go_up
  go_up-outermost t v = rw v.level_is refl

  pub add_import-Reaches :
      (t : ScopeTable Node) {below : List (ScopeData Node)} {top : ScopeData Node} (file_id : ℕ)
      → Shows t below top
      → Reaches (add_import file_id t) below (record top { imports = top.imports ++ file_id ∷ [] })
  unfolding add_import
  add_import-Reaches t file_id v =
      put_top t (λ d. record d { imports = d.imports ++ file_id ∷ [] }) v

  -- The lock is in force.
  abbrev pub is_locked : ScopeTable Node → Bool
  is_locked t = ltb t.locked_level t.level && not (t.locked_level == unlocked_level)

  declare_if-Shows :
      (b : Bool) (name : Bytes) (node : Node) (t : ScopeTable Node) {below : List (ScopeData Node)}
      {top : ScopeData Node}
      → Shows t below top
      → Shows (declare_if b name node t) below top
  unfolding declare_if declare_global_symbol
  declare_if-Shows false name node t v = v
  declare_if-Shows true name node t v = record {
    above = v.above;
    table_is = v.table_is;
    level_is = v.level_is;
    blank = v.blank;
  }

  free-Reaches :
      (t : ScopeTable Node) {below : List (ScopeData Node)} {top : ScopeData Node} (name : Bytes)
      (node : Node) (is_public : Bool)
      → Shows t below top
      → is_locked t ≡ false
      → Reaches
          (add_to_scope name node is_public unlocked_level t)
          below
          (record top { scope = emplace name node top.scope })
  unfolding add_to_scope get_scope
  free-Reaches t name node is_public v h =
      let put = put_top t (λ d. record d { scope = emplace name node d.scope }) v in
      record {
        after = declare_if (is_public && put.after.level == 0) name node put.after;
        result = rw (h, put.result) refl;
        shows = declare_if-Shows _ name node put.after put.shows;
      }

  locked-Reaches :
      (t : ScopeTable Node) {below : List (ScopeData Node)} {top : ScopeData Node} (name : Bytes)
      (node : Node) (is_public : Bool)
      → Shows t below top
      → is_locked t ≡ true
      → Reaches (add_to_scope name node is_public unlocked_level t) below top
  unfolding add_to_scope
  locked-Reaches t name node is_public v h = record { after = t; result = rw h refl; shows = v }

  -- `add_to_scope` for the current scope succeeds and leaves the other scopes as they are. With the lock
  -- in force the current one stays too; else a symbol of the name that is there stays, and if there is
  -- none, the new one is put in.
  pub add_to_scope-Reaches :
      (t : ScopeTable Node) {below : List (ScopeData Node)} {top : ScopeData Node} (name : Bytes)
      (node : Node) (is_public : Bool)
      → Shows t below top
      → Reaches
          (add_to_scope name node is_public unlocked_level t)
          below
          (if is_locked t then top else record top { scope = emplace name node top.scope })
  add_to_scope-Reaches t name node is_public v = elim (Bool-cases (is_locked t)) [
    | inl locked ↦ rw locked (locked-Reaches t name node is_public v locked)
    | inr free ↦ rw free (free-Reaches t name node is_public v free)
  ]
