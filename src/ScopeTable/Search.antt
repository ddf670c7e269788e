-- ===== src/ScopeTable/Search.antt =====
-- The `find` functions of src/scope_table.cpp on the stack of scopes.
use pars_c.Common.{
  if◌then◌else◌, Bool, ℕ, suc, ◌+◌, ◌||◌, Option, none, some, inl, inr, List, [], ◌∷◌, ◌++◌,
  append_assoc, Bytes, length, length-append, lookup, or_else, ◌≡◌, refl, sym, ap, ◌∙◌, arith,
  Option-cases, get_elem?,
}
use pars_c.Outcome.{ok, ◌>>=◌}
use pars_c.ScopeTable.{
  is_always, found_or, ScopeData, ScopeTable, GlobalSymbol, contains, get_scope_data, find_from,
  find_local_symbol, find_behind, find_symbol, find_global_symbol, first_available,
}
use pars_c.ScopeTable.Frames.{Shows, get_elem?-append}

contains-append :
    (x : ℕ) (xs ys : List ℕ) → contains x (xs ++ ys) ≡ (contains x xs || contains x ys)
contains-append x [] ys = refl
contains-append x (y ∷ xs) ys = ground (arith, contains-append x xs ys)

module _ {Node : Type 0} where
  -- The outermost scope that has the symbol decides.
  abbrev pub first_of : Bytes → List (ScopeData Node) → Option Node
  first_of name [] = none
  first_of name (d ∷ ds) = or_else (lookup name d.scope) (first_of name ds)

  abbrev pub imports_of : List (ScopeData Node) → List ℕ
  imports_of [] = []
  imports_of (d ∷ ds) = d.imports ++ imports_of ds

  -- The imports that the loop gathers up to the scope with the symbol.
  abbrev gather_behind : Option Node → List ℕ → List ℕ → List ℕ
  gather_behind none later now = later
  gather_behind (some node) later now = now

  abbrev pub gather : Bytes → List (ScopeData Node) → List ℕ → List ℕ
  gather name [] found = found
  gather name (d ∷ ds) found =
      gather_behind (lookup name d.scope) (gather name ds (d.imports ++ found)) (d.imports ++ found)

  find_from-step :
      (count i : ℕ) (name : Bytes) (t : ScopeTable Node) (d : ScopeData Node)
      → get_elem? t.table i ≡ some d
      → let t' = record t { modules_found = d.imports ++ t.modules_found } in
        find_from (suc count) i name t
        ≡ found_or (lookup name d.scope) t' (find_from count (i + 1) name t')
  unfolding find_from get_scope_data
  find_from-step count i name t d h = rw h refl

  find_from-frames :
      (ds : List (ScopeData Node)) (name : Bytes) (t : ScopeTable Node)
      (before above : List (ScopeData Node)) (i : ℕ)
      → t.table ≡ before ++ (ds ++ above)
      → i ≡ length before
      → find_from (length ds) i name t
        ≡ ok (first_of name ds, record t { modules_found = gather name ds t.modules_found })
  unfolding find_from get_scope_data
  find_from-frames [] name t before above i e k = refl
  find_from-frames (d ∷ ds) name t before above i e k =
      let here : get_elem? t.table i ≡ some d =
        rw (e, k) (get_elem?-append before d (ds ++ above)) in
      let t' = record t { modules_found = d.imports ++ t.modules_found } in
      find_from-step (length ds) i name t d here ∙ elim (Option-cases (lookup name d.scope)) [
        | inr (node, h) ↦ rw h refl
        | inl h ↦ rw h (
            find_from-frames ds name t' (before ++ d ∷ []) above (i + 1)
              (e ∙ sym (append_assoc before (d ∷ []) (ds ++ above)))
              (omega (arith, k, length-append before (d ∷ []))))
      ]

  -- `find_local_symbol` finds the symbol of the outermost scope that has the name: a symbol of an
  -- inner scope does not hide it. It leaves the imports that it passed, and else changes nothing.
  pub find_local_symbol-first :
      (name : Bytes) (t : ScopeTable Node) {below : List (ScopeData Node)} {top : ScopeData Node}
      → Shows t below top
      → let frames = below ++ top ∷ [] in
        find_local_symbol name t
        ≡ ok (first_of name frames, record t { modules_found = gather name frames [] })
  unfolding find_local_symbol
  find_local_symbol-first name t {below} {top} v =
      let frames = below ++ top ∷ [] in
      let count : t.level + 1 ≡ length frames =
        omega (arith, v.level_is, length-append below (top ∷ [])) in
      rw count (
        find_from-frames frames name (record t { modules_found = [] }) [] v.above 0
          (v.table_is ∙ sym (append_assoc below (top ∷ []) v.above)) refl)

  gather-contains :
      (name : Bytes) (ds : List (ScopeData Node)) (found : List ℕ) (x : ℕ)
      → first_of name ds ≡ none
      → contains x (gather name ds found) ≡ (contains x (imports_of ds) || contains x found)
  gather-contains name [] found x h = refl
  gather-contains name (d ∷ ds) found x h = elim (Option-cases (lookup name d.scope)) [
    | inr (node, e) ↦ absurd (cc (h, e))
    | inl e ↦ rw e (
        ground (
          arith,
          gather-contains name ds (d.imports ++ found) x (rw e at h),
          contains-append x d.imports found,
          contains-append x d.imports (imports_of ds),
        ))
  ]

  first_available-same :
      (symbols : List (GlobalSymbol Node)) (xs ys : List ℕ)
      → ((x : ℕ) → contains x xs ≡ contains x ys)
      → first_available symbols xs ≡ first_available symbols ys
  unfolding first_available
  first_available-same [] xs ys h = refl
  first_available-same (symbol ∷ symbols) xs ys h =
      rw (h symbol.file_id, first_available-same symbols xs ys h) refl

  gather_twice :
      (name : Bytes) (ds : List (ScopeData Node)) (x : ℕ)
      → first_of name ds ≡ none
      → contains x (gather name ds (gather name ds [])) ≡ contains x (imports_of ds)
  gather_twice name ds x h =
      ground
        (arith, gather-contains name ds (gather name ds []) x h, gather-contains name ds [] x h)

  -- The node of the first symbol that has the property.
  abbrev pub first_that : (GlobalSymbol Node → Bool) → List (GlobalSymbol Node) → Option Node
  first_that p [] = none
  first_that p (symbol ∷ symbols) = if p symbol then some symbol.node else first_that p symbols

  first_available-first_that :
      (symbols : List (GlobalSymbol Node)) (xs : List ℕ)
      → first_available symbols xs
        ≡ first_that (λ symbol. is_always symbol.availability || contains symbol.file_id xs) symbols
  unfolding first_available
  first_available-first_that [] xs = refl
  first_available-first_that (symbol ∷ symbols) xs = rw (first_available-first_that symbols xs) refl

  -- `find_symbol` finds the symbol of the outermost scope that has the name, and else the first
  -- global symbol of the name that is always available or whose file one of the scopes imports. The
  -- second loop over the scopes finds nothing.
  pub find_symbol-first :
      (name : Bytes) (t : ScopeTable Node) {below : List (ScopeData Node)} {top : ScopeData Node}
      → Shows t below top
      → let frames = below ++ top ∷ [] in
        (find_symbol name t >>= λ (found, t'). ok found)
        ≡ ok (
            or_else (first_of name frames) (
              first_that
                (λ symbol.
                  is_always symbol.availability || contains symbol.file_id (imports_of frames))
                (find_global_symbol name t)))
  unfolding find_symbol find_behind find_global_symbol
  find_symbol-first name t {below} {top} v =
      let frames = below ++ top ∷ [] in
      let count : t.level + 1 ≡ length frames =
        omega (arith, v.level_is, length-append below (top ∷ [])) in
      let found = gather name frames [] in
      elim (Option-cases (first_of name frames)) [
        | inr (node, h) ↦ rw (find_local_symbol-first name t v, h) refl
        | inl h ↦
            rw
              (
                find_local_symbol-first name t v,
                h,
                count,
                find_from-frames frames name (record t { modules_found = found }) [] v.above 0
                    (v.table_is ∙ sym (append_assoc below (top ∷ []) v.above)) refl,
                h,
              )
              (ap ok (
                first_available-same _ _ _ (λ x. gather_twice name frames x h)
                ∙ first_available-first_that _ _))
      ]
