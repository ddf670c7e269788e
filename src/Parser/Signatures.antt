-- ===== src/Parser/Signatures.antt =====
-- The parameters that `parse_fn_signature` of src/ast.cpp reads.
use pars_c.Common.{
  Bool, ap, arith, false, if◌then◌else◌, refl, suc, true, zero, ℕ, ◌*◌, ◌+◌, ◌||◌, ◌∙◌, ◌≡◌, ◌≤◌,
}
use pars_c.Token.{Token}
use pars_c.Outcome.{default_parameters_last}
use pars_c.Syntax.{FnSignature, VarDecl, VarDecls, more_vars, no_vars, signature}
use pars_c.Parser.State.{Ast, Calls, StdLib, pure, throw}
use pars_c.Parser.Types.{
  Params, add_param, count_param, has_initializer, insert_vars, param_loop, parse_fn_signature,
  var_token,
}
use pars_c.Parser.Knot.{calls_with}
use pars_c.Parser.Ends.Fuel.{Settles, parse_fn_signature-EndsBy, settles}
use pars_c.Parser.Returns.{
  Post, Yields, Yields-exhausted, Yields-if, Yields-pure, Yields-throw, then_lem, ◌▸◌,
}
use pars_c.Lexer.Progress.Weights.{IsSmall, weight}
use mathlib.Core.Path.{subst}
use pars_c.TextReader.{u32}

-- From the first parameter with a default value on, or from the start if one was `seen`, every
-- parameter has one.
abbrev pub DefaultsLast : Bool → VarDecls → Type 0
DefaultsLast seen no_vars = Unit {0}
DefaultsLast seen (more_vars var vars) =
    (seen ≡ true → has_initializer var ≡ true) × DefaultsLast (has_initializer var || seen) vars

-- The parameters without a default value.
abbrev pub required : VarDecls → ℕ
required no_vars = 0
required (more_vars var vars) = (if has_initializer var then 0 else 1) + required vars

abbrev IsParams : Bool → Params → Type 0
IsParams seen params =
    DefaultsLast seen params.parameters × (params.callable_arity ≡ u32 (required params.parameters))

-- `added` stands in front of the parameters that are read.
abbrev pub IsSignature : VarDecls → FnSignature → Type 0
IsSignature added (signature parameters arity variadic mut_set type) =
    (vars : VarDecls) × (parameters ≡ insert_vars added vars)
    × DefaultsLast false vars
    × (arity ≡ u32 (required vars))

abbrev IsCounted : Bool → VarDecl → ℕ → Type 0
IsCounted seen param n =
    (seen ≡ true → has_initializer param ≡ true) × (n ≡ (if has_initializer param then 0 else 1))

u32_add : (n m k : ℕ) → k ≡ u32 m → u32 (n + k) ≡ u32 (n + m)
u32_add n m k e = omega arith

counted_as :
    (initialized seen : Bool) (token : Token)
    → Yields
        (λ (n : ℕ). (seen ≡ true → initialized ≡ true) × (n ≡ (if initialized then 0 else 1)))
        (if initialized
          then pure 0
          else if seen
          then throw token default_parameters_last
          else pure 1)
counted_as true seen token = Yields-pure _ 0 (λ e. refl, refl)
counted_as false true token = Yields-throw _ token _
counted_as false false token = Yields-pure _ 1 (λ e. e, refl)

module _ (c : Calls) where
  count_param-IsCounted :
      (seen : Bool) (param : VarDecl) → Yields (IsCounted seen param) (count_param c seen param)
  unfolding count_param
  count_param-IsCounted seen param = counted_as (has_initializer param) seen (var_token param)

  param_loop-IsParams :
      (n : ℕ) (parse_names seen : Bool) → Yields (IsParams seen) (param_loop c n parse_names seen)
  unfolding param_loop add_param
  param_loop-IsParams zero parse_names seen = Yields-exhausted _
  param_loop-IsParams (suc n) parse_names seen = then_lem _ λ ended.
      Yields-if ended (Yields-pure _ _ (tt, refl)) (
        then_lem _ λ variadic. Yields-if variadic (Yields-pure _ _ (tt, refl)) (
          then_lem _ λ param. count_param-IsCounted seen param ▸ λ count counted.
          then_lem _ λ closed. then_lem _ λ _.
            param_loop-IsParams n parse_names (has_initializer param || seen) ▸ λ later p.
            Yields-pure _ _ (
              (counted.0, p.0),
              u32_add count (required later.parameters) later.callable_arity p.1
                  ∙ ap (λ k. u32 (k + required later.parameters)) counted.1,
            )))

  parse_fn_signature-Yields :
      (parse_names : Bool) (added : VarDecls)
      → Yields (IsSignature added) (parse_fn_signature c parse_names added)
  unfolding parse_fn_signature
  parse_fn_signature-Yields parse_names added = then_lem _ λ _.
      param_loop-IsParams c.rounds parse_names false ▸ λ params p. then_lem _ λ _.
        then_lem _ λ has_return.
          then_lem _ λ (type, mut_set). Yields-pure _ _ (params.parameters, refl, p.0, p.1)

-- In a text of less than 2^32 bytes, with fuel for twice the weight of the lexer and two,
-- `parse_fn_signature` does not run out of fuel, and a signature that it returns has, behind the
-- parameters that are added in front, first parameters without a default value and then only such
-- with one; the callable arity counts the former, on 32 bits.
pub parse_fn_signature-IsSignature :
    (std : StdLib) (fuel : ℕ) (parse_names : Bool) (added : VarDecls) (s : Ast)
    → IsSmall s.lexer
    → 2 * weight s.lexer + 2 ≤ fuel
    → Settles
        (λ sig s'. IsSignature added sig)
        (parse_fn_signature (calls_with std fuel) parse_names added s)
parse_fn_signature-IsSignature std fuel parse_names added s small enough =
    settles (weight s.lexer) _ _ _
      (parse_fn_signature-EndsBy std fuel s small enough parse_names added)
      λ sig s' e.
        subst (Post (λ x t. IsSignature added x)) e
          ((parse_fn_signature-Yields (calls_with std fuel) parse_names added).at s)
