-- ===== src/Parser/Balance/Declared.antt =====
-- The stacks and the attributes under the functions of src/ast.cpp on declarations.
use pars_c.Common.{Bool, Option, false, none, refl, some, suc, true, zero, ℕ}
use pars_c.Token.{Token, TokenType}
use pars_c.Outcome.{Outcome, ok, thrown, undefined}
use pars_c.Symbol.{Symbol}
use pars_c.Syntax.{VarDecls, null_expr}
use pars_c.ScopeTable.{ScopeData}
use pars_c.Parser.State.{Ast, Calls, Entry, StdLib, collection_at, modify, type_at}
use pars_c.Parser.Declarations.{
  Variants, block_loop, braced_body, collection_or, emplace_fn, flag_if, found_in,
  get_or_add_symbol, method_loop, parse_alias, parse_block, parse_body, parse_enum, parse_fn,
  parse_impl, parse_self, parse_var, parse_variant, var_type, variant_value,
}
use pars_c.Parser.Balance.{
  Keeping, Keeping-exhausted, Keeping-gets, Keeping-if, Keeping-lexing, Keeping-meaningless,
  Keeping-pure, Keeping-throw, Kept, Kept-same, new_node-Keeping, scoping-Keeping,
  with_function-Keeping, ◌▸◌,
}
use pars_c.Parser.Balance.Names.{collect_attributes-Keeping, get_symbol-Keeping}
use pars_c.Parser.Balance.Primaries.{KeepingCalls}
use pars_c.Parser.Balance.Typings.{
  parse_fields-Keeping, parse_fn_signature-Keeping, parse_type_meta-Keeping,
}

flag_if-Keeping : (flag : ℕ) (type : TokenType) (name : Symbol) → Keeping (flag_if flag type name)
unfolding flag_if
flag_if-Keeping flag type name = Keeping-gets _

pub modified-Keeping :
    (change : Ast → Ast) → ((s : Ast) → Kept s (change s)) → Keeping (modify change)
unfolding modify
modified-Keeping change h = record { at = h }

collection_or-Keeping :
    (entry : Option Entry) (name : Symbol) (is_public : Bool)
    → Keeping (collection_or entry name is_public)
unfolding collection_or
collection_or-Keeping (some (collection_at place)) name is_public = Keeping-pure _
collection_or-Keeping (some (type_at id)) name is_public = Keeping-meaningless
collection_or-Keeping none name is_public = Keeping-gets _ ▸ λ place.
    modified-Keeping _ (λ s. Kept-same s _ refl refl refl refl) ▸ λ _.
    scoping-Keeping _ ▸ λ _. Keeping-pure _

found_in-Keeping :
    (name : Symbol) (is_public : Bool) (found : Outcome (ScopeData Entry))
    → Keeping (found_in name is_public found)
found_in-Keeping name is_public (ok d) = collection_or-Keeping _ name is_public
found_in-Keeping name is_public (thrown error) = Keeping-meaningless
found_in-Keeping name is_public undefined = Keeping-meaningless

get_or_add_symbol-Keeping :
    (name : Symbol) (is_public : Bool) → Keeping (get_or_add_symbol name is_public)
unfolding get_or_add_symbol
get_or_add_symbol-Keeping name is_public =
    Keeping-gets _ ▸ λ table. found_in-Keeping name is_public _

emplace_fn-Keeping : (place id : ℕ) → Keeping (emplace_fn place id)
unfolding emplace_fn
emplace_fn-Keeping place id = modified-Keeping _ (λ s. Kept-same s _ refl refl refl refl)

variant_value-Keeping :
    (std : StdLib) (has_value : Bool) (highest_value : ℕ)
    → Keeping (variant_value std has_value highest_value)
unfolding variant_value
variant_value-Keeping std false highest_value = Keeping-pure _
variant_value-Keeping std true highest_value = Keeping-lexing _ ▸ λ token. Keeping-pure _

parse_variant-Keeping : (std : StdLib) (v : Variants) → Keeping (parse_variant std v)
unfolding parse_variant
parse_variant-Keeping std v = get_symbol-Keeping ▸ λ name. Keeping-lexing _ ▸ λ has_value.
    variant_value-Keeping std has_value _ ▸ λ value.
    Keeping-if _ (Keeping-gets _ ▸ λ token. Keeping-throw _ _) (Keeping-pure _)

parse_self-Keeping : (token : Token) → Keeping (parse_self token)
unfolding parse_self
parse_self-Keeping token = new_node-Keeping ▸ λ node. Keeping-pure _

module _ (c : Calls) (h : KeepingCalls c) where
  pub parse_enum-Keeping : (std : StdLib) → Keeping (parse_enum c std)
  unfolding parse_enum
  parse_enum-Keeping std = new_node-Keeping ▸ λ node. get_symbol-Keeping ▸ λ name.
      parse_fields-Keeping _ _ _ (parse_variant-Keeping std) ▸ λ v.
      scoping-Keeping _ ▸ λ _. Keeping-pure _

  block_loop-Keeping : (n : ℕ) → Keeping (block_loop c n)
  unfolding block_loop
  block_loop-Keeping zero = Keeping-exhausted
  block_loop-Keeping (suc n) = Keeping-lexing _ ▸ λ ended.
      Keeping-if ended (Keeping-pure _)
        (h.declaration ▸ λ node. block_loop-Keeping n ▸ λ nodes. Keeping-pure _)

  pub parse_block-Keeping : Keeping (parse_block c)
  unfolding parse_block
  parse_block-Keeping = new_node-Keeping ▸ λ node.
      block_loop-Keeping c.rounds ▸ λ nodes. Keeping-lexing _ ▸ λ _. Keeping-pure _

  braced_body-Keeping :
      (extern_flag : ℕ) (braced : Bool) → Keeping (braced_body c extern_flag braced)
  unfolding braced_body
  braced_body-Keeping extern_flag true = parse_block-Keeping ▸ λ body. Keeping-pure _
  braced_body-Keeping extern_flag false =
      Keeping-if _ (Keeping-lexing _ ▸ λ token. Keeping-throw _ _) (Keeping-pure _)

  parse_body-Keeping : (extern_flag : ℕ) (arrow : Bool) → Keeping (parse_body c extern_flag arrow)
  unfolding parse_body
  parse_body-Keeping extern_flag true =
      new_node-Keeping ▸ λ node. h.expression ▸ λ e. Keeping-pure _
  parse_body-Keeping extern_flag false = Keeping-lexing _ ▸ braced_body-Keeping extern_flag

  pub parse_fn-Keeping : (added_params : VarDecls) → Keeping (parse_fn c added_params)
  unfolding parse_fn
  parse_fn-Keeping added_params = new_node-Keeping ▸ λ node. get_symbol-Keeping ▸ λ name.
      flag_if-Keeping _ _ name ▸ λ extern_flag. flag_if-Keeping _ _ name ▸ λ private_flag.
      flag_if-Keeping _ _ name ▸ λ static_flag. parse_fn_signature-Keeping c h true _ ▸ λ sig.
      get_or_add_symbol-Keeping name _ ▸ λ place. emplace_fn-Keeping place _ ▸ λ _.
      with_function-Keeping _ (Keeping-lexing _ ▸ parse_body-Keeping extern_flag) _
      ▸ λ (body, body_flags). Keeping-pure _

  method_loop-Keeping : (n : ℕ) (token : Token) → Keeping (method_loop c n token)
  unfolding method_loop
  method_loop-Keeping zero token = Keeping-exhausted
  method_loop-Keeping (suc n) token = Keeping-lexing _ ▸ λ ended.
      Keeping-if ended (Keeping-pure _) (
        collect_attributes-Keeping c ▸ λ _. parse_self-Keeping token ▸ λ self.
        Keeping-lexing _ ▸ λ _.
        parse_fn-Keeping _ ▸ λ method. method_loop-Keeping n token ▸ λ methods. Keeping-pure _)

  pub parse_impl-Keeping : Keeping (parse_impl c)
  unfolding parse_impl
  parse_impl-Keeping = new_node-Keeping ▸ λ node. get_symbol-Keeping ▸ λ name.
      Keeping-lexing _ ▸ λ _.
      method_loop-Keeping c.rounds _ ▸ λ methods. Keeping-lexing _ ▸ λ _. Keeping-pure _

  pub parse_alias-Keeping : Keeping (parse_alias c)
  unfolding parse_alias
  parse_alias-Keeping = new_node-Keeping ▸ λ node. get_symbol-Keeping ▸ λ name.
      Keeping-lexing _ ▸ λ _. Keeping-lexing _ ▸ λ is_distinct.
      parse_type_meta-Keeping c h ▸ λ (type, mut_set).
      flag_if-Keeping _ _ name ▸ λ private_flag. scoping-Keeping _ ▸ λ _. Keeping-pure _

  var_type-Keeping : (has_type : Bool) → Keeping (var_type c has_type)
  unfolding var_type
  var_type-Keeping true = parse_type_meta-Keeping c h
  var_type-Keeping false = Keeping-pure _

  pub parse_var-Keeping : Keeping (parse_var c)
  unfolding parse_var
  parse_var-Keeping = new_node-Keeping ▸ λ node. Keeping-gets _ ▸ λ is_const.
      Keeping-gets _ ▸ λ is_var. Keeping-gets _ ▸ λ is_let. get_symbol-Keeping ▸ λ name.
      Keeping-lexing _ ▸ λ has_type. var_type-Keeping has_type ▸ λ (type, mut_set).
      Keeping-lexing _ ▸ λ has_value.
      Keeping-if has_value h.expression (Keeping-pure null_expr) ▸ λ initializer.
      Keeping-if _ (Keeping-pure _) (Keeping-gets _ ▸ λ token. Keeping-throw _ _)
