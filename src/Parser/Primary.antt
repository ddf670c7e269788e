-- ===== src/Parser/Primary.antt =====
-- What a primary expression starts with: `parse_primary_inner` of src/ast.cpp, and the lists of
-- expressions that it calls.
use pars_c.Common.{Bool, Bytes, [], false, if◌then◌else◌, suc, true, zero, ℕ, ◌∷◌}
use pars_c.Token.{TokenType}
use pars_c.Syntax.{
  Expr, Exprs, abs, anon_init, array_literal, cast, group, keyword, more_exprs, named, nameof_expr,
  no_exprs, null_expr, packed, ptr_op, sizeof_expr, struct_literal, symbol,
}
use pars_c.Parser.State.{
  Calls, Parser, advance, can_initialize, exhausted, expect, first_match, match, new_node,
  peek_between, peek_is, peek_last, pure, ◌>>=◌, ◌>>◌,
}

module _ (calls : Calls) where
  -- the loop of `collect_call_arguments`, and, with another end, that of `parse_brace_list`
  unfoldable pub expressions_until : ℕ → TokenType → Parser Exprs
  expressions_until zero end = exhausted
  expressions_until (suc n) end = peek_is end >>= λ ended. if ended then pure no_exprs else (do
    e ← calls.expression
    more ← match TokenType.comma
    if more
        then (expressions_until n end >>= λ es. pure (more_exprs e es))
        else pure (more_exprs e no_exprs))

  unfoldable pub collect_call_arguments : Parser Exprs
  collect_call_arguments = expressions_until calls.rounds TokenType.right_paren

  unfoldable pub parse_brace_list : Parser Exprs
  parse_brace_list = do
    es ← expressions_until calls.rounds TokenType.right_brace
    expect TokenType.right_brace
    pure es

  -- the loop of `parse_array_literal`
  unfoldable pub array_elements : ℕ → Parser Exprs
  array_elements zero = exhausted
  array_elements (suc n) = do
    e ← calls.expression
    more ← match TokenType.comma
    if more
        then (array_elements n >>= λ es. pure (more_exprs e es))
        else pure (more_exprs e no_exprs)

  -- `before` puts the given elements in front; the type specifier is set by the caller.
  unfoldable pub parse_array_literal : Expr → (Exprs → Exprs) → Parser Expr
  parse_array_literal specifier before = do
    node ← new_node
    es ← array_elements calls.rounds
    expect TokenType.right_bracket
    pure (array_literal node specifier (before es))

  unfoldable pub parse_group : Parser Expr
  parse_group = do
    inner ← calls.expression
    node ← new_node
    expect TokenType.right_paren
    pure (group node inner)

  unfoldable pub struct_or_symbol : Bytes → Bool → Parser Expr
  struct_or_symbol name true = do
    node ← new_node
    es ← parse_brace_list
    pure (struct_literal node name es)
  struct_or_symbol name false = new_node >>= λ node. pure (symbol node name)

  unfoldable pub parse_identifier : Parser Expr
  parse_identifier = do
    identifier ← peek_last
    is_named ← match TokenType.colon
    if is_named
        then (do
          value ← calls.expression
          node ← new_node
          pure (named node identifier.lexeme value))
        else (do
          allowed ← can_initialize
          braced ← if allowed then match TokenType.left_brace else pure false
          struct_or_symbol identifier.lexeme braced)

  unfoldable pub parse_cast : Parser Expr
  parse_cast = do
    expect TokenType.left_paren
    node ← new_node
    (type, mut_set) ← calls.parse_type 0 0 false
    expect TokenType.right_paren
    target ← calls.parse_unary
    pure (cast node mut_set type target)

  unfoldable pub parse_ptr_op : Parser Expr
  parse_ptr_op = do
    node ← new_node
    op ← peek_last
    target ← calls.parse_primary
    pure (ptr_op node op.type target)

  unfoldable pub parse_abs : Parser Expr
  parse_abs = do
    value ← calls.expression
    node ← new_node
    expect TokenType.pipe
    pure (abs node value)

  -- the tests of `parse_primary_inner` behind that for an attribute
  unfoldable pub parse_marked : Parser Expr
  parse_marked =
      first_match
        ((TokenType.left_brace, do node ← new_node; es ← parse_brace_list; pure (anon_init node es))
          ∷ (TokenType.pipe, parse_abs)
          ∷ (TokenType.ampersand, parse_ptr_op)
          ∷ (TokenType.caret, parse_ptr_op)
          ∷ (TokenType.ellipse, new_node >>= λ node. pure (packed node))
          ∷ (TokenType.left_bracket, parse_array_literal null_expr (λ es. es))
          ∷ [])
        (pure null_expr)

  unfoldable pub parse_keyword : Parser Expr
  parse_keyword = do advance; node ← new_node; pure (keyword node)

  unfoldable pub parse_primary_inner : Parser Expr
  parse_primary_inner =
      first_match
        ((TokenType.left_paren, parse_group)
          ∷ (TokenType.identifier, parse_identifier)
          ∷ (
            TokenType.sizeof_kw,
            calls.expression >>= λ e. new_node >>= λ node. pure (sizeof_expr node e),
          )
          ∷ (
            TokenType.nameof_kw,
            calls.expression >>= λ e. new_node >>= λ node. pure (nameof_expr node e),
          )
          ∷ (TokenType.cast_kw, parse_cast)
          ∷ [])
        (do
          attribute ← peek_between TokenType.attribute_keyword_start TokenType.attribute_keyword_end
          if attribute then parse_keyword else parse_marked)
