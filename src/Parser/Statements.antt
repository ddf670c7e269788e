-- ===== src/Parser/Statements.antt =====
-- Statements: `statement` and `declaration` of src/ast.cpp, and the functions that they call.
use pars_c.Common.{
  Bool, Bytes, List, Option, [], false, if◌then◌else◌, none, some, suc, true, zero, ℕ, ◌∷◌,
}
use pars_c.Token.{TokenType}
use pars_c.Outcome.{return_outside_function}
use pars_c.Symbol.{no_attributes, symbol_with}
use pars_c.Syntax.{
  AnyNode, Expr, LiteralExprValue, NamedSymbol, Ty, VarDecl, VarDecls, assignment, block_node,
  break_stmt, comp_if, continue_stmt, expr_node, for_stmt, if_stmt, import_stmt, is_void, literal,
  more_vars, no_vars, null_expr, null_node, null_type, return_stmt, type_node, var_decl, var_node,
  while_stmt,
}
use pars_c.Parser.State.{
  Calls, Parser, StdLib, advance, exhausted, expect, first_match, get_current_fn, lexing, match,
  match_one_of, modify, new_node, peek_between, peek_last, pure, throw, with_initialize, ◌>>=◌,
  ◌>>◌,
}
use pars_c.Parser.Symbols.{collect_attributes}
use pars_c.Parser.Postfix.{parse_primary}
use pars_c.Parser.Types.{parse_struct}
use pars_c.Parser.Declarations.{
  parse_alias, parse_block, parse_enum, parse_fn, parse_impl, parse_var,
}
use pars_c.Lexer.Window.{match_both, match_next}

-- The type of the current token lies among the assignments.
abbrev pub is_assigning : Parser Bool
is_assigning = peek_between TokenType.assignment_start TokenType.assignment_end

-- The variable of a loop, whose type the analyzer sets.
unfoldable pub parse_binding : Parser VarDecl
parse_binding = do
  node ← new_node
  token ← peek_last
  pure (var_decl node (symbol_with token.lexeme no_attributes 0) 0 null_type null_expr 0)

unfoldable pub binding_loop : ℕ → Parser VarDecls
binding_loop zero = exhausted
binding_loop (suc n) = match TokenType.identifier >>= λ found.
    if found
    then (do
      var ← parse_binding
      more ← match TokenType.comma
      if more
          then (binding_loop n >>= λ vars. pure (more_vars var vars))
          else pure (more_vars var no_vars))
    else pure no_vars

-- the loop over the parts of a path
unfoldable pub path_loop : ℕ → Parser (List Bytes)
path_loop zero = exhausted
path_loop (suc n) = match TokenType.identifier >>= λ found.
    if found
    then (do
      token ← peek_last
      more ← match TokenType.dot
      if more
          then (path_loop n >>= λ names. pure (token.lexeme ∷ names))
          else pure (token.lexeme ∷ []))
    else pure []

unfoldable pub imported_symbol : Bytes → Bool → Parser NamedSymbol
imported_symbol name false = pure (record { name = name; symbol = name })
imported_symbol name true =
    expect TokenType.identifier >>= λ token. pure (record { name = token.lexeme; symbol = name })

-- the loop over the symbols that are imported
unfoldable pub selection_loop : ℕ → Parser (List NamedSymbol)
selection_loop zero = exhausted
selection_loop (suc n) = match TokenType.identifier >>= λ found.
    if found
    then (do
      token ← peek_last
      renamed ← match TokenType.equal
      item ← imported_symbol token.lexeme renamed
      more ← match TokenType.comma
      if more then (selection_loop n >>= λ items. pure (item ∷ items)) else pure (item ∷ []))
    else pure []

unfoldable pub parse_alias_name : Bool → Parser Bytes
parse_alias_name false = pure []
parse_alias_name true = peek_last >>= λ token. advance >> pure token.lexeme

unfoldable pub parse_selection : ℕ → Bool → Parser (List NamedSymbol)
parse_selection n false = pure []
parse_selection n true = selection_loop n

unfoldable pub return_value : Parser Expr → Bool → Parser Expr
return_value value true = pure null_expr
return_value value false = value

unfoldable pub discard_attributes : Parser (Unit {0})
discard_attributes = modify (λ s. record s { pending_attributes = [] })

module _ (calls : Calls) where
  unfoldable pub parse_import : Parser AnyNode
  parse_import = do
    node ← new_node
    has_alias ← lexing (match_next TokenType.equal)
    alias_name ← parse_alias_name has_alias
    path ← path_loop calls.rounds
    selective ← match TokenType.colon
    selection ← parse_selection calls.rounds selective
    pure (import_stmt node path alias_name selection)

  -- An expression in which no object is initialized with braces behind its name.
  unfoldable pub parse_condition : Parser Expr
  parse_condition = with_initialize false calls.expression

  unfoldable pub parse_else : Bool → Parser AnyNode
  parse_else false = pure null_node
  parse_else true = match TokenType.if_kw >>= λ nested.
      if nested
      then calls.parse_if
      else (do expect TokenType.left_brace; body ← parse_block calls; pure (block_node body))

  unfoldable pub parse_if : Parser AnyNode
  parse_if = do
    node ← new_node
    condition ← parse_condition
    expect TokenType.left_brace
    body ← parse_block calls
    has_else ← match TokenType.else_kw
    else_br ← parse_else has_else
    pure (if_stmt node condition body else_br)

  unfoldable pub parse_while : Expr → Parser AnyNode
  parse_while condition = do
    node ← new_node
    expect TokenType.left_brace
    body ← parse_block calls
    pure (while_stmt node condition body)

  -- The literal has no type yet.
  unfoldable pub parse_loop : Parser AnyNode
  parse_loop =
      new_node >>= λ node. parse_while (literal node (LiteralExprValue.bool true) null_type)

  unfoldable pub parse_for : Parser AnyNode
  parse_for = do
    node ← new_node
    bindings ← binding_loop calls.rounds
    expect TokenType.in_kw
    iterable ← parse_condition
    expect TokenType.left_brace
    body ← parse_block calls
    pure (for_stmt node bindings iterable body)

  unfoldable pub return_from : Option Ty → Parser AnyNode
  return_from none = peek_last >>= λ token. throw token return_outside_function
  return_from (some type) = do
    node ← new_node
    value ← return_value calls.expression (is_void type)
    pure (return_stmt node value)

  unfoldable pub parse_return : Parser AnyNode
  parse_return = get_current_fn >>= return_from

  unfoldable pub parse_assignment : Expr → Parser AnyNode
  parse_assignment lhs = do
    node ← new_node
    advance
    op ← peek_last
    rhs ← calls.expression
    pure (assignment node lhs rhs op.type)

  -- The end of `statement`.
  unfoldable pub expression_statement : StdLib → Parser AnyNode
  expression_statement std = do
    e ← parse_primary calls std
    assigning ← is_assigning
    if assigning then parse_assignment e else pure (expr_node e)

  unfoldable pub comp_if_stmt : Parser AnyNode
  comp_if_stmt = do node ← new_node; stmt ← parse_if; pure (comp_if node stmt)

  unfoldable pub statement_behind : StdLib → Parser AnyNode
  statement_behind std =
      first_match
        ((TokenType.import_kw, parse_import)
          ∷ (TokenType.while_kw, parse_condition >>= parse_while)
          ∷ (TokenType.loop_kw, parse_loop)
          ∷ (TokenType.break_kw, new_node >>= λ node. pure (break_stmt node))
          ∷ (TokenType.continue_kw, new_node >>= λ node. pure (continue_stmt node))
          ∷ (TokenType.for_kw, parse_for)
          ∷ (TokenType.left_brace, parse_block calls >>= λ body. pure (block_node body))
          ∷ (TokenType.return_kw, parse_return)
          ∷ [])
        (expression_statement std)

  unfoldable pub statement : StdLib → Parser AnyNode
  statement std = first_match ((TokenType.if_kw, parse_if) ∷ []) (
      lexing (match_both TokenType.dollar TokenType.if_kw) >>= λ is_comp.
      if is_comp then comp_if_stmt else statement_behind std)

  unfoldable pub var_or_statement : StdLib → Bool → Parser AnyNode
  var_or_statement std true = parse_var calls >>= λ var. pure (var_node var)
  var_or_statement std false =
      first_match ((TokenType.alias_kw, parse_alias calls >>= λ type. pure (type_node type)) ∷ [])
        (discard_attributes >> statement std)

  unfoldable pub declaration_behind : StdLib → Parser AnyNode
  declaration_behind std =
      first_match
        ((TokenType.fn_kw, parse_fn calls no_vars >>= λ type. pure (type_node type))
          ∷ (TokenType.struct_kw, parse_struct calls false >>= λ type. pure (type_node type))
          ∷ (TokenType.impl_kw, parse_impl calls)
          ∷ (TokenType.enum_kw, parse_enum calls std >>= λ type. pure (type_node type))
          ∷ [])
        (match_one_of (TokenType.var_kw ∷ TokenType.let_kw ∷ TokenType.const_kw ∷ [])
          >>= var_or_statement std)

  unfoldable pub declaration : StdLib → Parser AnyNode
  declaration std = collect_attributes calls >> declaration_behind std
