-- ===== src/Parser/Declarations.antt =====
-- Declarations: `parse_fn`, `parse_enum`, `parse_impl`, `parse_alias`, `parse_var` and
-- `parse_block` of src/ast.cpp, and `get_or_add_symbol` of src/scope_table.hpp for overload sets.
use pars_c.Common.{
  Bool, Bytes, List, Option, [], emplace, false, if◌then◌else◌, length, lookup, none, some, suc,
  true, zero, ℕ, ◌%◌, ◌++◌, ◌+◌, ◌==◌, ◌∷◌,
}
use pars_c.Token.{Token, TokenType}
use pars_c.Outcome.{Outcome, duplicate_variant, missing_body, ok, variable_without_type}
use pars_c.Symbol.{Symbol, has_keyword_attribute, no_attributes, symbol_with}
use pars_c.Syntax.{
  AnyNode, Block, EnumVariant, Expr, FnSignature, MutSet, Nodes, Ty, Types, VarDecl, VarDecls,
  alias, block, enum, expr_node, fn, impl_stmt, more_nodes, more_types, more_vars, no_block,
  no_nodes, no_types, no_vars, null_expr, null_node, null_type, set_bit, signature, var_decl,
}
use pars_c.ScopeTable.{ScopeData, add_to_scope, get_scope, get_scope_data, unlocked_level}
use pars_c.Parser.State.{
  Calls, Entry, Parser, StdLib, collection_at, exhausted, expect, gets, match, meaningless, modify,
  new_node, peek, peek_is, peek_last, peek_last_is, pure, scoping, throw, type_at, with_function,
  ◌>>=◌, ◌>>◌,
}
use pars_c.Parser.Symbols.{collect_attributes, get_symbol}
use pars_c.Parser.Types.{parse_fields, parse_fn_signature, parse_type_meta}
use pars_c.Lexer.Keywords.{codes}

-- the name of the parameter that a method has first
abbrev pub self_name : Bytes
self_name = codes "self"

-- `UINT64_MAX`
abbrev pub no_default : ℕ
no_default = 18446744073709551615

abbrev pub u64 : ℕ → ℕ
u64 n = n % 18446744073709551616

-- The flags: Extern 1, Inline 2, Private 4, ArrowFn 8, Static 16.
unfoldable pub flag_if : ℕ → TokenType → Symbol → Parser ℕ
flag_if flag type name =
    gets (λ s. if has_keyword_attribute name type s.g_attributes then flag else 0)

-- `get_or_add_symbol<FnCollection>`: the place of the overload set that the scope has under the
-- name. A node of another kind is cast to an overload set, which has no meaning.
unfoldable pub collection_or : Option Entry → Symbol → Bool → Parser ℕ
collection_or (some (collection_at place)) name is_public = pure place
collection_or (some (type_at id)) name is_public = meaningless
collection_or none name is_public = do
  place ← gets (λ s. length s.collections)
  modify (λ s. record s { collections = s.collections ++ [] ∷ [] })
  scoping (add_to_scope name.name (collection_at place) is_public unlocked_level)
  pure place

abbrev pub found_in : Symbol → Bool → Outcome (ScopeData Entry) → Parser ℕ
found_in name is_public (ok data_) = collection_or (lookup name.name data_.scope) name is_public
found_in name is_public _ = meaningless

unfoldable pub get_or_add_symbol : Symbol → Bool → Parser ℕ
get_or_add_symbol name is_public = do
  table ← gets (λ s. s.scope_table)
  let (place, table') = get_scope unlocked_level table
  found_in name is_public (get_scope_data place table')

-- `collection->functions.emplace_back(fn)`
abbrev pub emplace_at : ℕ → ℕ → List (List ℕ) → List (List ℕ)
emplace_at place id [] = []
emplace_at zero id (fns ∷ rest) = (fns ++ id ∷ []) ∷ rest
emplace_at (suc place) id (fns ∷ rest) = fns ∷ emplace_at place id rest

unfoldable pub emplace_fn : ℕ → ℕ → Parser (Unit {0})
emplace_fn place id = modify (λ s. record s { collections = emplace_at place id s.collections })

unfoldable pub return_of : FnSignature → Ty
return_of (signature params arity variadic mut_set type) = type

-- `nodes.emplace_back(node)` for the nodes of `declare_to`, but for the null pointer
unfoldable pub add_node : AnyNode → Nodes → Nodes
add_node null_node nodes = nodes
add_node node nodes = more_nodes node nodes

-- The value that is next, the default value and the variants of `parse_enum`.
pub record Variants : Type 0 where
  pub highest_value : ℕ
  pub default_value : ℕ
  pub variants : List (Bytes × EnumVariant)

abbrev pub no_variants : Variants
no_variants = record { highest_value = 0; default_value = no_default; variants = [] }

unfoldable pub add_variant : Symbol → ℕ → Variants → Variants
add_variant name value v = record {
  highest_value = u64 (value + 1);
  default_value = if v.default_value == no_default then value else v.default_value;
  variants = emplace name.name (record { symbol = name; value = value }) v.variants;
}

abbrev pub is_there : Option EnumVariant → Bool
is_there none = false
is_there (some variant) = true

module _ (std : StdLib) where
  unfoldable pub variant_value : Bool → ℕ → Parser ℕ
  variant_value false highest_value = pure highest_value
  variant_value true highest_value =
      expect TokenType.integer_literal >>= λ literal. pure (std.atol literal.lexeme)

  unfoldable pub parse_variant : Variants → Parser Variants
  parse_variant v = do
    name ← get_symbol
    has_value ← match TokenType.equal
    value ← variant_value has_value v.highest_value
    if is_there (lookup name.name v.variants)
        then (peek_last >>= λ token. throw token duplicate_variant)
        else pure (add_variant name value v)

unfoldable pub typed_or_initialized : Ty → Expr → Bool
typed_or_initialized null_type null_expr = false
typed_or_initialized type initializer = true

-- the parameter `self` of a method
unfoldable pub parse_self : Token → Parser VarDecl
parse_self token = new_node >>= λ node. pure (
    var_decl (record node { token = token }) (symbol_with (self_name) no_attributes 0) 0 null_type
      null_expr 0)

module _ (calls : Calls) where
  unfoldable pub parse_enum : StdLib → Parser Ty
  parse_enum std = do
    node ← new_node
    name ← get_symbol
    v ← parse_fields calls.rounds (parse_variant std) no_variants
    scoping (add_to_scope name.name (type_at node.id) true unlocked_level)
    pure (enum node name v.default_value v.variants)

  unfoldable pub block_loop : ℕ → Parser Nodes
  block_loop zero = exhausted
  block_loop (suc n) = peek_is TokenType.right_brace >>= λ ended.
      if ended
      then pure no_nodes
      else (do node ← calls.declaration; nodes ← block_loop n; pure (add_node node nodes))

  unfoldable pub parse_block : Parser Block
  parse_block = do
    node ← new_node
    nodes ← block_loop calls.rounds
    expect TokenType.right_brace
    pure (block node nodes)

  -- The body of a function that is not an arrow function.
  unfoldable pub braced_body : ℕ → Bool → Parser (Block × ℕ)
  braced_body extern_flag true = parse_block >>= λ body. pure (body, 0)
  braced_body extern_flag false =
      if extern_flag == 0 then (peek >>= λ token. throw token missing_body) else pure (no_block, 0)

  -- The body, and the flags that come with it.
  unfoldable pub parse_body : ℕ → Bool → Parser (Block × ℕ)
  parse_body extern_flag true = do
    node ← new_node
    e ← calls.expression
    pure (block node (more_nodes (expr_node e) no_nodes), 10)
  parse_body extern_flag false = match TokenType.left_brace >>= braced_body extern_flag

  unfoldable pub parse_fn : VarDecls → Parser Ty
  parse_fn added_params = do
    node ← new_node
    name ← get_symbol
    extern_flag ← flag_if 1 TokenType.extern_kw name
    private_flag ← flag_if 4 TokenType.private_kw name
    static_flag ← flag_if 16 TokenType.static_kw name
    sig ← parse_fn_signature calls true (if static_flag == 0 then added_params else no_vars)
    place ← get_or_add_symbol name (private_flag == 0)
    emplace_fn place node.id
    (body, body_flags) ←
        with_function (return_of sig) (match TokenType.arrow >>= parse_body extern_flag)
    pure
        (fn node name sig body (extern_flag + private_flag + static_flag + body_flags) (some place))

  unfoldable pub method_loop : ℕ → Token → Parser Types
  method_loop zero token = exhausted
  method_loop (suc n) token = peek_is TokenType.right_brace >>= λ ended.
      if ended then pure no_types else (do
        collect_attributes calls
        self ← parse_self token
        expect TokenType.fn_kw
        method ← parse_fn (more_vars self no_vars)
        methods ← method_loop n token
        pure (more_types method methods))

  unfoldable pub parse_impl : Parser AnyNode
  parse_impl = do
    node ← new_node
    name ← get_symbol
    expect TokenType.left_brace
    methods ← method_loop calls.rounds node.token
    expect TokenType.right_brace
    pure (impl_stmt node name methods)

  unfoldable pub parse_alias : Parser Ty
  parse_alias = do
    node ← new_node
    name ← get_symbol
    expect TokenType.equal
    is_distinct ← match TokenType.distinct_kw
    (type, mut_set) ← parse_type_meta calls
    private_flag ← flag_if 4 TokenType.private_kw name
    scoping (add_to_scope name.name (type_at node.id) (private_flag == 0) unlocked_level)
    pure (alias node name is_distinct mut_set type)

  -- The type of a variable, which `is_type_inferred` if it is null.
  unfoldable pub var_type : Bool → Parser (Ty × MutSet)
  var_type true = parse_type_meta calls
  var_type false = pure (null_type, 0)

  -- The flags: Const 16, Var 128.
  unfoldable pub parse_var : Parser VarDecl
  parse_var = do
    node ← new_node
    is_const ← peek_last_is TokenType.const_kw
    is_var ← peek_last_is TokenType.var_kw
    is_let ← peek_last_is TokenType.let_kw
    name ← get_symbol
    has_type ← match TokenType.colon
    (type, mut_set) ← var_type has_type
    has_value ← match TokenType.equal
    initializer ← if has_value then calls.expression else pure null_expr
    if typed_or_initialized type initializer
        then pure (
            var_decl node name (if is_let then set_bit 0 mut_set else mut_set) type initializer
              ((if is_const then 16 else 0) + (if is_var then 128 else 0)))
        else (peek_last >>= λ token. throw token variable_without_type)
