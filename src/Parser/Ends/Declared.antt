-- ===== src/Parser/Ends/Declared.antt =====
-- The fuel of the functions of src/ast.cpp on declarations.
use pars_c.Common.{Bool, Option, arith, false, none, refl, some, suc, true, zero, ℕ, ◌<◌, ◌≤◌}
use pars_c.Token.{Token, TokenType}
use pars_c.Outcome.{Outcome, ok, thrown, undefined}
use pars_c.Symbol.{Symbol}
use pars_c.Syntax.{VarDecls, no_nodes, no_types, null_expr}
use pars_c.ScopeTable.{ScopeData}
use pars_c.Parser.State.{Calls, Entry, StdLib, collection_at, type_at}
use pars_c.Parser.Declarations.{
  Variants, block_loop, braced_body, collection_or, emplace_fn, flag_if, found_in,
  get_or_add_symbol, method_loop, no_variants, parse_alias, parse_block, parse_body, parse_enum,
  parse_fn, parse_impl, parse_self, parse_var, parse_variant, return_of, var_type, variant_value,
}
use pars_c.Parser.Ends.{
  Ends, Ends-gets, Ends-if, Ends-meaningless, Ends-pure, Ends-throw, expect-Ends, loosely,
  match-Ends, peek-Ends, peek_is-Ends, takes_any, takes_some, ◌▸◌, ◌▹◌,
}
use pars_c.Parser.Ends.Steps.{Good, modify-Ends, new_node-Ends, scoping-Ends, with_function-Ends}
use pars_c.Parser.Ends.Names.{collect_attributes-Ends, get_symbol-Ends}
use pars_c.Parser.Ends.Typings.{parse_fields-Ends, parse_fn_signature-Ends, parse_type_meta-Ends}

pub flag_if-Ends :
    {w : ℕ} (flag : ℕ) (type : TokenType) (name : Symbol)
    → Ends takes_any w (flag_if flag type name)
unfolding flag_if
flag_if-Ends flag type name = Ends-gets _

collection_or-Ends :
    {w : ℕ} (o : Option Entry) (name : Symbol) (is_public : Bool)
    → Ends takes_any w (collection_or o name is_public)
unfolding collection_or
collection_or-Ends (some (collection_at place)) name is_public = Ends-pure place
collection_or-Ends (some (type_at id)) name is_public = Ends-meaningless _
collection_or-Ends none name is_public =
    Ends-gets _ ▸ λ place. modify-Ends _ (λ s. refl) ▸ λ _. scoping-Ends _ ▸ λ _. Ends-pure place

found_in-Ends :
    {w : ℕ} (name : Symbol) (is_public : Bool) (o : Outcome (ScopeData Entry))
    → Ends takes_any w (found_in name is_public o)
found_in-Ends name is_public (ok scope) = collection_or-Ends _ name is_public
found_in-Ends name is_public (thrown e) = Ends-meaningless _
found_in-Ends name is_public undefined = Ends-meaningless _

get_or_add_symbol-Ends :
    {w : ℕ} (name : Symbol) (is_public : Bool) → Ends takes_any w (get_or_add_symbol name is_public)
unfolding get_or_add_symbol
get_or_add_symbol-Ends name is_public =
    Ends-gets (λ s. s.scope_table) ▸ λ table. found_in-Ends name is_public _

emplace_fn-Ends : {w : ℕ} (place id : ℕ) → Ends takes_any w (emplace_fn place id)
unfolding emplace_fn
emplace_fn-Ends place id = modify-Ends _ (λ s. refl)

variant_value-Ends :
    {w : ℕ} (std : StdLib) (has_value : Bool) (highest_value : ℕ)
    → Ends takes_any w (variant_value std has_value highest_value)
unfolding variant_value
variant_value-Ends std false highest_value = Ends-pure highest_value
variant_value-Ends std true highest_value =
    expect-Ends TokenType.integer_literal refl ▸ λ literal. Ends-pure _

pub parse_variant-Ends :
    {w : ℕ} (std : StdLib) (v : Variants) → Ends takes_some w (parse_variant std v)
unfolding parse_variant
parse_variant-Ends std v = get_symbol-Ends ▹ λ name u lower.
    match-Ends TokenType.equal refl ▸ λ has_value.
    variant_value-Ends std has_value v.highest_value ▸ λ value.
    Ends-if _ (Ends-gets _ ▸ λ token. Ends-throw _ _ _) (Ends-pure _)

parse_self-Ends : {w : ℕ} (token : Token) → Ends takes_any w (parse_self token)
unfolding parse_self
parse_self-Ends token = new_node-Ends ▸ λ node. Ends-pure _

module _ (c : Calls) (n : ℕ) (g : Good n c) where
  pub parse_enum-Ends : (w : ℕ) (std : StdLib) → w ≤ n → Ends takes_any w (parse_enum c std)
  unfolding parse_enum
  parse_enum-Ends w std le =
      let enough = g.rounds in
      new_node-Ends ▸ λ node. get_symbol-Ends ▸ λ name.
      parse_fields-Ends c.rounds w _ no_variants (omega arith)
        (λ v u lower. parse_variant-Ends std v)
      ▸ λ v. scoping-Ends _ ▸ λ _. Ends-pure _

  block_loop-Ends : (r w : ℕ) → w < r → w < n → Ends takes_any w (block_loop c r)
  unfolding block_loop
  block_loop-Ends zero w lt below = absurd (omega arith)
  block_loop-Ends (suc r) w lt below = peek_is-Ends TokenType.right_brace ▸ λ ended.
      Ends-if ended (Ends-pure no_nodes) (
        g.declaration w below ▹ λ node v lower.
        block_loop-Ends r v (omega arith) (omega arith) ▸ λ nodes. Ends-pure _)

  pub parse_block-Ends : (w : ℕ) → w < n → Ends takes_any w (parse_block c)
  unfolding parse_block
  parse_block-Ends w lt =
      let enough = g.rounds in
      new_node-Ends ▸ λ node. block_loop-Ends c.rounds w (omega arith) lt ▸ λ nodes.
      expect-Ends TokenType.right_brace refl ▸ λ _. Ends-pure _

  braced_body-Ends :
      (w : ℕ) (extern_flag : ℕ) (braced : Bool)
      → w < n
      → Ends takes_any w (braced_body c extern_flag braced)
  unfolding braced_body
  braced_body-Ends w extern_flag true lt = parse_block-Ends w lt ▸ λ body. Ends-pure _
  braced_body-Ends w extern_flag false lt =
      Ends-if _ (peek-Ends ▸ λ token. Ends-throw _ _ _) (Ends-pure _)

  parse_body-Ends :
      (w : ℕ) (extern_flag : ℕ) (arrow : Bool)
      → w < n
      → Ends takes_any w (parse_body c extern_flag arrow)
  unfolding parse_body
  parse_body-Ends w extern_flag true lt =
      new_node-Ends ▸ λ node. g.expression w lt ▸ λ e. Ends-pure _
  parse_body-Ends w extern_flag false lt =
      match-Ends TokenType.left_brace refl ▸ λ braced. braced_body-Ends w extern_flag braced lt

  pub parse_fn-Ends :
      (w : ℕ) (added_params : VarDecls) → w ≤ n → Ends takes_some w (parse_fn c added_params)
  unfolding parse_fn
  parse_fn-Ends w added_params le = new_node-Ends ▸ λ node. get_symbol-Ends ▹ λ name v lower.
      flag_if-Ends 1 _ name ▸ λ extern_flag. flag_if-Ends 4 _ name ▸ λ private_flag.
      flag_if-Ends 16 _ name ▸ λ static_flag.
      parse_fn_signature-Ends c n g v true _ (omega arith) ▸ λ sig.
      get_or_add_symbol-Ends name _ ▸ λ place. emplace_fn-Ends place node.id ▸ λ _.
      with_function-Ends (return_of sig) (
        match-Ends TokenType.arrow refl ▸ λ arrow.
        parse_body-Ends v extern_flag arrow (omega arith))
      ▸ λ (body, body_flags). Ends-pure _

  method_loop-Ends :
      (r w : ℕ) (token : Token) → w < r → w < n → Ends takes_any w (method_loop c r token)
  unfolding method_loop
  method_loop-Ends zero w token lt below = absurd (omega arith)
  method_loop-Ends (suc r) w token lt below =
      let enough = g.rounds in
      peek_is-Ends TokenType.right_brace ▸ λ ended. Ends-if ended (Ends-pure no_types) (
        collect_attributes-Ends c w (omega arith) ▸ λ _. parse_self-Ends token ▸ λ self.
        expect-Ends TokenType.fn_kw refl ▹ λ _ v lower. parse_fn-Ends v _ (omega arith) ▸ λ method.
        method_loop-Ends r v token (omega arith) (omega arith) ▸ λ methods. Ends-pure _)

  pub parse_impl-Ends : (w : ℕ) → w < n → Ends takes_any w (parse_impl c)
  unfolding parse_impl
  parse_impl-Ends w lt =
      let enough = g.rounds in
      new_node-Ends ▸ λ node. get_symbol-Ends ▸ λ name. expect-Ends TokenType.left_brace refl ▸ λ _.
      method_loop-Ends c.rounds w node.token (omega arith) lt ▸ λ methods.
      expect-Ends TokenType.right_brace refl ▸ λ _. Ends-pure _

  pub parse_alias-Ends : (w : ℕ) → w < n → Ends takes_any w (parse_alias c)
  unfolding parse_alias
  parse_alias-Ends w lt = new_node-Ends ▸ λ node. get_symbol-Ends ▸ λ name.
      expect-Ends TokenType.equal refl ▸ λ _. match-Ends TokenType.distinct_kw refl ▸ λ is_distinct.
      parse_type_meta-Ends c n g w lt ▸ λ (type, mut_set).
      flag_if-Ends 4 _ name ▸ λ private_flag. scoping-Ends _ ▸ λ _. Ends-pure _

  var_type-Ends : (w : ℕ) (has_type : Bool) → w < n → Ends takes_any w (var_type c has_type)
  unfolding var_type
  var_type-Ends w true lt = loosely (parse_type_meta-Ends c n g w lt)
  var_type-Ends w false lt = Ends-pure _

  pub parse_var-Ends : (w : ℕ) → w < n → Ends takes_any w (parse_var c)
  unfolding parse_var
  parse_var-Ends w lt = new_node-Ends ▸ λ node. Ends-gets _ ▸ λ is_const. Ends-gets _ ▸ λ is_var.
      Ends-gets _ ▸ λ is_let. get_symbol-Ends ▸ λ name.
      match-Ends TokenType.colon refl ▸ λ has_type. var_type-Ends w has_type lt ▸ λ (type, mut_set).
      match-Ends TokenType.equal refl ▸ λ has_value.
      Ends-if has_value (loosely (g.expression w lt)) (Ends-pure null_expr) ▸ λ initializer.
      Ends-if _ (Ends-pure _) (Ends-gets _ ▸ λ token. Ends-throw _ _ _)
