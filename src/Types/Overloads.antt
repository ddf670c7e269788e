-- ===== src/Types/Overloads.antt =====
-- Overload sets over the store of types: `FnCollection::get_fn` of src/fn_collection.cpp, with the
-- equality of src/type.cpp.
use pars_c.Common.{
  ap, Bool, List, Option, [], arith, false, length, ltb, none, refl, some, suc, true, ℕ, ◌+◌, ◌<◌,
  ◌==◌, ◌∷◌, ◌≡◌, ◌≤◌,
}
use pars_c.FnCollection.{is_of, FnType, Typing, find_fn, get_fn, is_ambiguous, match_args, resolve}
use pars_c.Types.{TypeStore, is_equal}
use pars_c.Types.Equality.{IsResolved, is_equal_self}
use pars_c.Types.Ranks.{Ranked}

-- A test that runs out of fuel counts as false.
abbrev answer : Option Bool → Bool
answer none = false
answer (some b) = b

le→not_ltb : (a b : ℕ) → b ≤ a → ltb a b ≡ false
le→not_ltb a b le = ground arith

module _ {Expr : Type 0} (type_of : Expr → Option ℕ) (is_ctx_sensitive : Expr → Bool)
    (visit_expr : Expr → ℕ → Expr) where
  abbrev pub typing_of : TypeStore → ℕ → Typing ℕ Expr
  typing_of t n = record {
    is_equal = λ a b. answer (is_equal t n a b);
    type_of = type_of;
    is_ctx_sensitive = is_ctx_sensitive;
    visit_expr = visit_expr;
  }

  -- Arguments and parameters, one for one, of the same types.
  abbrev pub TypedAs : (ℕ → ℕ) → ℕ → List Expr → List ℕ → Type 0
  TypedAs rank n [] [] = Unit
  TypedAs rank n (arg ∷ args) (param ∷ params) =
      (type_of arg ≡ some param) × (rank param + rank param < n) × TypedAs rank n args params
  TypedAs rank n _ _ = ⊥

  module _ (t : TypeStore) (rank : ℕ → ℕ) (ranked : Ranked t rank)
      (resolved : (a : ℕ) → IsResolved (t.node a)) (n : ℕ) where
    match_args-TypedAs :
        (args : List Expr) (params : List ℕ)
        → TypedAs rank n args params
        → match_args (typing_of t n) args params
          ≡ record { args = args; all_match = true; ambiguous_args = 0 }
    unfolding match_args resolve is_ambiguous
    match_args-TypedAs [] [] h = refl
    match_args-TypedAs [] (param ∷ params) h = elim h [ ]
    match_args-TypedAs (arg ∷ args) [] h = elim h [ ]
    match_args-TypedAs (arg ∷ args) (param ∷ params) (e, less, h) =
        let own : is_of (typing_of t n) (type_of arg) param ≡ true =
          rw e (ap answer (is_equal_self t rank ranked resolved n param less)) in
        let unambiguous : is_ambiguous (typing_of t n) arg ≡ false = rw (e, is_ambiguous) refl in
        rw (unambiguous, own, match_args-TypedAs args params h) refl

    has_parameters :
        (arg : Expr) (args : List Expr) (params : List ℕ)
        → TypedAs rank n (arg ∷ args) params
        → (0 == length params) ≡ false
    has_parameters arg args [] h = elim h [ ]
    has_parameters arg args (param ∷ params) h = ground arith

    first-found :
        (fn : FnType ℕ) (fns : List (FnType ℕ)) (arg : Expr) (args : List Expr)
        → fn.callable_arity ≤ suc (length args)
        → TypedAs rank n (arg ∷ args) fn.parameters
        → find_fn (typing_of t n) (fn ∷ fns) (arg ∷ args) ≡ (some fn, arg ∷ args)
    unfolding find_fn
    first-found fn fns arg args le h =
        let enough : ltb (suc (length args)) fn.callable_arity ≡ false = le→not_ltb _ _ le in
        rw
          (
            enough,
            match_args-TypedAs (arg ∷ args) fn.parameters h,
            has_parameters arg args fn.parameters h,
          )
          refl

    -- Where no type contains itself, no name is left unresolved and the type of `nil` does not occur:
    -- `get_fn` finds the first function of an overload set and leaves the arguments as they are, if
    -- there is at least one argument, there are enough for the function, and they have just the types of
    -- its parameters, one for one.
    pub get_fn-TypedAs :
        (fn : FnType ℕ) (fns : List (FnType ℕ)) (arg : Expr) (args : List Expr)
        → fn.callable_arity ≤ suc (length args)
        → TypedAs rank n (arg ∷ args) fn.parameters
        → get_fn (typing_of t n) (fn ∷ fns) (arg ∷ args) ≡ (some fn, arg ∷ args)
    unfolding get_fn
    get_fn-TypedAs fn [] arg args le h = refl
    get_fn-TypedAs fn (other ∷ fns) arg args le h = first-found fn (other ∷ fns) arg args le h
