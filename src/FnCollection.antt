-- ===== src/FnCollection.antt =====
-- Overload sets, src/fn_collection.cpp, over what it uses of types, expressions and the analyzer.
use pars_c.Common.{
  Bool-cases, inr, inl, ℕ, suc, ◌+◌, Bool, true, false, not, ◌&&◌, Option, none, some, List, [],
  ◌∷◌, length, ltb, ◌==◌, if◌then◌else◌, ◌≡◌, refl, arith, ◌≤◌, ◌∙◌, sym, ◌⊎◌,
}
use mathlib.Core.Option.{map}
use mathlib.Core.Path.{subst}

-- What the overload sets use of src/type.hpp, src/expr.hpp and src/analyzer.hpp.
pub record Typing (Ty Expr : Type 0) : Type 0 where
  pub is_equal : Ty → Ty → Bool
  pub type_of : Expr → Option Ty
  pub is_ctx_sensitive : Expr → Bool
  -- `visit_expr` with the type of the parameter as its context
  pub visit_expr : Expr → Ty → Expr

-- The part of `FnType` that is looked at.
pub record FnType (Ty : Type 0) : Type 0 where
  pub parameters : List Ty
  pub callable_arity : ℕ

-- How the loop over the arguments ends, with the arguments as they are then.
pub record Match (Expr : Type 0) : Type 0 where
  pub args : List Expr
  pub all_match : Bool
  pub ambiguous_args : ℕ

not_less : (n : ℕ) → ltb (suc n) 0 ≡ false
not_less n = ground arith

not_ltb→le : (a b : ℕ) → ltb a b ≡ false → b ≤ a
not_ltb→le a b e = ground arith

module _ {Ty Expr : Type 0} (typing : Typing Ty Expr) where
  abbrev pub lacks_type : Option Ty → Bool
  lacks_type none = true
  lacks_type (some type) = false

  abbrev pub is_of : Option Ty → Ty → Bool
  is_of none param = false
  is_of (some type) param = typing.is_equal type param

  -- An argument without a type that depends on its context is replaced.
  unfoldable pub is_ambiguous : Expr → Bool
  is_ambiguous arg = lacks_type (typing.type_of arg) && typing.is_ctx_sensitive arg

  unfoldable pub resolve : Expr → Ty → Expr
  resolve arg param = if is_ambiguous arg then typing.visit_expr arg param else arg

  abbrev put_first : Expr → ℕ → Match Expr → Match Expr
  put_first arg n m = record {
    args = arg ∷ m.args;
    all_match = m.all_match;
    ambiguous_args = n + m.ambiguous_args;
  }

  unfoldable pub match_args : List Expr → List Ty → Match Expr
  match_args [] params = record { args = []; all_match = true; ambiguous_args = 0 }
  match_args (arg ∷ args) [] = record { args = arg ∷ args; all_match = true; ambiguous_args = 0 }
  match_args (arg ∷ args) (param ∷ params) =
      let resolved = resolve arg param in
      let n = if is_ambiguous arg then 1 else 0 in
      let later = match_args args params in
      if is_of (typing.type_of resolved) param
      then put_first resolved n later
      else record { args = resolved ∷ args; all_match = false; ambiguous_args = n }

  -- the loop of `get_fn` over the functions
  unfoldable pub find_fn : List (FnType Ty) → List Expr → Option (FnType Ty) × List Expr
  find_fn [] args = (none, args)
  find_fn (fn ∷ fns) args =
      let m = match_args args fn.parameters in
      let skipped = find_fn fns args in
      let tried = find_fn fns m.args in
      if ltb (length args) fn.callable_arity
      then skipped
      else if m.ambiguous_args == length fn.parameters
      then (none, m.args)
      else if m.all_match
      then (some fn, m.args)
      else tried

  unfoldable pub get_fn : List (FnType Ty) → List Expr → Option (FnType Ty) × List Expr
  get_fn (fn ∷ []) args = (some fn, args)
  get_fn functions args = find_fn functions args

  -- The lambda of `fn_is_duplicate`: its index stays 0.
  unfoldable pub all_equal_first : Ty → List Ty → Bool
  all_equal_first first [] = true
  all_equal_first first (param ∷ params) =
      if not (typing.is_equal first param) then false else all_equal_first first params

  abbrev all_match : List Ty → List Ty → Bool
  all_match [] params = true
  all_match (first ∷ others) params = all_equal_first first params

  -- `none`: the early return.
  unfoldable pub count_matches : List (FnType Ty) → FnType Ty → Option ℕ
  count_matches [] in_fn = some 0
  count_matches (fn ∷ fns) in_fn =
      if not (length fn.parameters == length in_fn.parameters)
      then none
      else map (λ n. if all_match in_fn.parameters fn.parameters then n + 1 else n)
          (count_matches fns in_fn)

  abbrev above_one : Option ℕ → Bool
  above_one none = false
  above_one (some n) = ltb 1 n

  unfoldable pub fn_is_duplicate : List (FnType Ty) → FnType Ty → Bool
  fn_is_duplicate functions in_fn = above_one (count_matches functions in_fn)

  -- Two types in a row that `is_equal` accepts, as long as there are both.
  abbrev pub Fits : List Expr → List Ty → Type 0
  Fits [] params = Unit
  Fits (arg ∷ args) [] = Unit
  Fits (arg ∷ args) (param ∷ params) = (is_of (typing.type_of arg) param ≡ true) × Fits args params

  -- The arguments `args'` are as many as `args`, enough for the function, and of its types.
  abbrev pub Takes : FnType Ty → List Expr → List Expr → Type 0
  Takes fn args args' =
      Fits args' fn.parameters × (length args' ≡ length args) × (fn.callable_arity ≤ length args)

  abbrev TakesFound : List Expr → Option (FnType Ty) × List Expr → Type 0
  TakesFound args (none, args') = Unit
  TakesFound args (some fn, args') = Takes fn args args'

  match_args-Fits :
      (args : List Expr) (params : List Ty)
      → (match_args args params).all_match ≡ true
      → Fits (match_args args params).args params
  unfolding match_args
  match_args-Fits [] params h = tt
  match_args-Fits (arg ∷ args) [] h = tt
  match_args-Fits (arg ∷ args) (param ∷ params) h =
      elim (Bool-cases (is_of (typing.type_of (resolve arg param)) param)) [
        | inl e ↦ rw e (e, match_args-Fits args params (rw e at h))
        | inr e ↦ absurd (cc (rw e at h))
      ]

  length-match_args :
      (args : List Expr) (params : List Ty) → length (match_args args params).args ≡ length args
  unfolding match_args
  length-match_args [] params = refl
  length-match_args (arg ∷ args) [] = refl
  length-match_args (arg ∷ args) (param ∷ params) =
      elim (Bool-cases (is_of (typing.type_of (resolve arg param)) param)) [
        | inl e ↦ rw (e, length-match_args args params)
        | inr e ↦ rw e
      ]

  -- A function that the loop of `get_fn` finds takes the arguments.
  find_fn-Takes :
      (fns : List (FnType Ty)) (args : List Expr) (fn : FnType Ty) (args' : List Expr)
      → find_fn fns args ≡ (some fn, args')
      → Takes fn args args'
  unfolding find_fn
  find_fn-Takes [] args fn args' h = cc
  find_fn-Takes (f ∷ fns) args fn args' h =
      let m = match_args args f.parameters in
      elim (Bool-cases (ltb (length args) f.callable_arity)) [
        | inl few ↦ find_fn-Takes fns args fn args' (rw few at h)
        | inr enough ↦ elim (Bool-cases (m.ambiguous_args == length f.parameters)) [
          | inl ambiguous ↦ absurd (cc (rw (enough, ambiguous) at h))
          | inr typed ↦ elim (Bool-cases m.all_match) [
            | inl all ↦ subst (TakesFound args) (rw (enough, typed, all) at h) (
              match_args-Fits args f.parameters all,
              length-match_args args f.parameters,
              not_ltb→le _ _ enough,
            )
            | inr other ↦
                let same = length-match_args args f.parameters in
                let (fits, long, enough') =
                  find_fn-Takes fns m.args fn args' (rw (enough, typed, other) at h) in
                (fits, long ∙ same, rw (sym same) enough')
          ]
        ]
      ]

  -- A function that `get_fn` finds is the only one, with the arguments left alone and not looked at, or
  -- it takes the arguments: as they are behind the call they are as many as before and enough for the
  -- function, and each that has a parameter has a type that is equal to that of the parameter.
  pub get_fn-Takes :
      (fns : List (FnType Ty)) (args : List Expr) (fn : FnType Ty) (args' : List Expr)
      → get_fn fns args ≡ (some fn, args')
      → ((fns ≡ fn ∷ []) × (args' ≡ args)) ⊎ Takes fn args args'
  unfolding get_fn
  get_fn-Takes [] args fn args' h = inr (find_fn-Takes [] args fn args' h)
  get_fn-Takes (f ∷ []) args fn args' h = inl (cc, cc)
  get_fn-Takes (f ∷ g ∷ fns) args fn args' h = inr (find_fn-Takes (f ∷ g ∷ fns) args fn args' h)

  -- If the first of several functions has no parameters, `get_fn` finds none at all.
  pub get_fn-no_parameters :
      (fn other : FnType Ty) (fns : List (FnType Ty)) (args : List Expr)
      → fn.parameters ≡ []
      → fn.callable_arity ≡ 0
      → get_fn (fn ∷ other ∷ fns) args ≡ (none, args)
  unfolding get_fn find_fn match_args
  get_fn-no_parameters fn other fns [] h k = rw (h, k) refl
  get_fn-no_parameters fn other fns (arg ∷ args) h k = rw (h, k, not_less (length args)) refl
