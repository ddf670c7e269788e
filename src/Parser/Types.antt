-- ===== src/Parser/Types.antt =====
-- Types, function signatures and structs: `parse_type`, `parse_type_meta`, `parse_fn_param`,
-- `parse_fn_signature`, `parse_fields` and `parse_struct` of src/ast.cpp and src/ast.hpp.
use pars_c.Common.{
  Bool, Bytes, List, [], false, if◌then◌else◌, ltb, none, suc, true, zero, ℕ, ◌+◌, ◌||◌, ◌∷◌,
}
use pars_c.Token.{Token, TokenType}
use pars_c.Outcome.{default_parameters_last, expected_type}
use pars_c.Symbol.{Symbol, no_attributes, symbol_with}
use pars_c.Syntax.{
  Expr, Fields, FnSignature, MutSet, Node, Ty, VarDecl, VarDecls, array, fn, more_fields, more_vars,
  no_block, no_fields, no_vars, null_expr, null_type, packed_type, pointer, set_bit, signature,
  slice_of, struct, unresolved_symbol, var_decl, void_type,
}
use pars_c.ScopeTable.{add_to_scope, unlocked_level}
use pars_c.Parser.State.{
  Calls, Parser, exhausted, expect, first_match, match, new_node, out_of_range, peek_is, peek_last,
  pure, returned, scoping, throw, type_at, ◌>>=◌, ◌>>◌,
}
use pars_c.Parser.Symbols.{get_symbol}
use pars_c.TextReader.{u32}

-- `UNSIZED_ARRAY`, `UINT32_MAX`
abbrev pub unsized_array : ℕ
unsized_array = 4294967295

-- `Symbol{}`; its count, which is not read, is the only thing that stays unset.
abbrev pub no_symbol : Symbol
no_symbol = symbol_with [] no_attributes 0

-- `mut_set.set(position)`: a place that is not in the set is an `std::out_of_range`.
unfoldable pub set_at : ℕ → MutSet → Parser MutSet
set_at position mut_set s =
    if ltb position 32 then returned (set_bit position mut_set) s else out_of_range

-- The loop of `parse_fields`, with what `fn` changes.
unfoldable pub fields_loop : {S : Type 0} → ℕ → (S → Parser S) → S → Parser S
fields_loop zero round state = exhausted
fields_loop (suc n) round state = peek_is TokenType.right_brace >>= λ ended.
    if ended
    then pure state
    else (do state' ← round state; match TokenType.comma; fields_loop n round state')

unfoldable pub parse_fields : {S : Type 0} → ℕ → (S → Parser S) → S → Parser S
parse_fields rounds round state = do
  expect TokenType.left_brace
  state' ← fields_loop rounds round state
  expect TokenType.right_brace
  pure state'

abbrev pub emplace_field : Fields → Symbol → MutSet → Ty → Fields
emplace_field no_fields name mut_set type = more_fields name mut_set type no_fields
emplace_field (more_fields n m t fields) name mut_set type =
    more_fields n m t (emplace_field fields name mut_set type)

abbrev pub insert_vars : VarDecls → VarDecls → VarDecls
insert_vars no_vars vars = vars
insert_vars (more_vars var added) vars = more_vars var (insert_vars added vars)

-- `param->initializer != nullptr` and `param->token`
unfoldable pub has_initializer : VarDecl → Bool
has_initializer (var_decl node name mut_set type null_expr flags) = false
has_initializer (var_decl node name mut_set type initializer flags) = true

unfoldable pub var_token : VarDecl → Token
var_token (var_decl node name mut_set type initializer flags) = node.token

-- What the loop of `parse_fn_signature` collects.
pub record Params : Type 0 where
  pub parameters : VarDecls
  pub callable_arity : ℕ
  pub is_variadic : Bool

abbrev pub no_params : Bool → Params
no_params variadic = record { parameters = no_vars; callable_arity = 0; is_variadic = variadic }

unfoldable pub add_param : VarDecl → ℕ → Params → Params
add_param param n later = record {
  parameters = more_vars param later.parameters;
  callable_arity = u32 (n + later.callable_arity);
  is_variadic = later.is_variadic;
}

unfoldable pub comma_unless : Bool → Parser (Unit {0})
comma_unless true = pure tt
comma_unless false = expect TokenType.comma >> pure tt

module _ (calls : Calls) where
  unfoldable pub type_meta_of : Ty × MutSet → Parser (Ty × MutSet)
  type_meta_of (null_type, mut_set) = peek_last >>= λ token. throw token expected_type
  type_meta_of (type, mut_set) = pure (type, mut_set)

  unfoldable pub parse_type_meta : Parser (Ty × MutSet)
  parse_type_meta = calls.parse_type 0 0 false >>= type_meta_of

  unfoldable pub param_symbol : Bool → Parser Symbol
  param_symbol false = pure no_symbol
  param_symbol true = get_symbol >>= λ name. expect TokenType.colon >> pure name

  unfoldable pub parse_fn_param : Bool → Parser VarDecl
  parse_fn_param parse_name = do
    node ← new_node
    name ← param_symbol parse_name
    (type, mut_set) ← parse_type_meta
    has_default ← match TokenType.equal
    initializer ← if has_default then calls.expression else pure null_expr
    pure (var_decl node name mut_set type initializer 0)

  -- One more for the arity, or the error of a parameter behind one with a default value.
  unfoldable pub count_param : Bool → VarDecl → Parser ℕ
  count_param saw_default param =
      if has_initializer param
      then pure 0
      else if saw_default
      then throw (var_token param) default_parameters_last
      else pure 1

  unfoldable pub param_loop : ℕ → Bool → Bool → Parser Params
  param_loop zero parse_names saw_default = exhausted
  param_loop (suc n) parse_names saw_default = peek_is TokenType.right_paren >>= λ ended.
      if ended
      then pure (no_params false)
      else (match TokenType.ellipse >>= λ variadic. if variadic then pure (no_params true) else (do
        param ← parse_fn_param parse_names
        count ← count_param saw_default param
        closed ← peek_is TokenType.right_paren
        comma_unless closed
        later ← param_loop n parse_names (has_initializer param || saw_default)
        pure (add_param param count later)))

  unfoldable pub return_type : Bool → Parser (Ty × MutSet)
  return_type true = parse_type_meta
  return_type false = pure (void_type, 0)

  unfoldable pub parse_fn_signature : Bool → VarDecls → Parser FnSignature
  parse_fn_signature parse_names added_params = do
    expect TokenType.left_paren
    params ← param_loop calls.rounds parse_names false
    expect TokenType.right_paren
    has_return ← match TokenType.colon
    (type, mut_set) ← return_type has_return
    pure (
        signature (insert_vars added_params params.parameters) params.callable_arity
          params.is_variadic mut_set type)

  unfoldable pub parse_field : Fields → Parser Fields
  parse_field fields = do
    name ← get_symbol
    expect TokenType.colon
    (type, mut_set) ← parse_type_meta
    pure (emplace_field fields name mut_set type)

  unfoldable pub struct_fields : Node → Symbol → Parser Ty
  struct_fields node name =
      parse_fields calls.rounds parse_field no_fields >>= λ fields. pure (struct node name fields)

  unfoldable pub parse_struct : Bool → Parser Ty
  parse_struct true = new_node >>= λ node. struct_fields node no_symbol
  parse_struct false = do
    node ← new_node
    name ← get_symbol
    scoping (add_to_scope name.name (type_at node.id) true unlocked_level)
    braced ← peek_is TokenType.left_brace
    if braced then struct_fields node name else pure (struct node name no_fields)

  -- the names in braces behind an array type
  unfoldable pub member_loop : ℕ → Parser (List Bytes)
  member_loop zero = exhausted
  member_loop (suc n) = do
    token ← expect TokenType.identifier
    more ← match TokenType.comma
    if more
        then (member_loop n >>= λ names. pure (token.lexeme ∷ names))
        else pure (token.lexeme ∷ [])

  unfoldable pub parse_members : Bool → Parser (List Bytes)
  parse_members false = pure []
  parse_members true = do
    members ← member_loop calls.rounds
    expect TokenType.right_brace
    pure members

  -- `size` and `size_expr`
  unfoldable pub parse_size : Bool → Parser (ℕ × Expr)
  parse_size true = pure (unsized_array, null_expr)
  parse_size false = calls.expression >>= λ e. pure (0, e)

  unfoldable pub parse_array : MutSet → ℕ → Bool → Parser (Ty × MutSet)
  parse_array mut_set position true = do
    node ← new_node
    (inner, mut_set') ← calls.parse_type mut_set position false
    pure (slice_of node inner, mut_set')
  parse_array mut_set position false = do
    node ← new_node
    open_size ← match TokenType.question
    (size, size_expr) ← parse_size open_size
    expect TokenType.right_bracket
    (inner, mut_set') ← calls.parse_type mut_set position false
    has_members ← match TokenType.left_brace
    members ← parse_members has_members
    pure (array node size size_expr inner members, mut_set')

  unfoldable pub parse_pointer : MutSet → ℕ → Parser (Ty × MutSet)
  parse_pointer mut_set position = do
    node ← new_node
    (inner, mut_set') ← calls.parse_type mut_set position false
    pure (pointer node inner, mut_set')

  unfoldable pub parse_fn_type : Parser Ty
  parse_fn_type = do
    node ← new_node
    sig ← parse_fn_signature false no_vars
    pure (fn node no_symbol sig no_block 0 none)

  -- `parse_type` behind the mutability, at the next position
  unfoldable pub parse_type_at : MutSet → ℕ → Parser (Ty × MutSet)
  parse_type_at mut_set position =
      first_match
        ((
          TokenType.identifier,
          new_node >>= λ node.
              peek_last >>= λ token. pure (unresolved_symbol node token.lexeme, mut_set),
        )
          ∷ (TokenType.caret, parse_pointer mut_set position)
          ∷ (TokenType.left_bracket, match TokenType.right_bracket >>= parse_array mut_set position)
          ∷ (TokenType.fn_kw, parse_fn_type >>= λ type. pure (type, mut_set))
          ∷ [])
        (do
          braced ← peek_is TokenType.left_brace
          if braced
              then (parse_struct true >>= λ type. pure (type, mut_set))
              else (match TokenType.ellipse >>= λ is_packed.
                  pure (if is_packed then packed_type else null_type, mut_set)))

  -- Behind `(` the whole type is read as one that is immutable; the `)` may be missing.
  unfoldable pub parse_type : MutSet → ℕ → Bool → Parser (Ty × MutSet)
  parse_type mut_set position imut_override = match TokenType.imut_kw >>= λ imut.
      if imut || imut_override
      then (do
        mut_set' ← set_at position mut_set
        grouped ← match TokenType.left_paren
        if grouped
            then (do
              (type, mut_set'') ← calls.parse_type mut_set' (position + 1) true
              match TokenType.right_paren
              pure (type, mut_set''))
            else parse_type_at mut_set' (position + 1))
      else parse_type_at mut_set (position + 1)
