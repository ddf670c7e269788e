-- ===== src/Parser/Postfix.antt =====
-- What follows a primary expression, `parse_primary` of src/ast.cpp, and `parse_unary`.
use pars_c.Common.{[], if◌then◌else◌, not, suc, zero, ℕ, ◌∷◌}
use pars_c.Token.{Token, TokenType, no_token}
use pars_c.Syntax.{
  Expr, abs, anon_init, array_literal, binary, call, cast, group, index_op, keyword, literal,
  member_access, more_exprs, named, nameof_expr, null_expr, packed, ptr_op, sizeof_expr, slice,
  struct_literal, symbol, unary,
}
use pars_c.Parser.State.{
  Calls, Parser, StdLib, exhausted, expect, match, match_one_of, new_node, peek_is, peek_last,
  peek_last_is, pure, ◌>>=◌, ◌>>◌,
}
use pars_c.Parser.Literals.{first_byte, parse_literal}
use pars_c.Parser.Primary.{collect_call_arguments, parse_array_literal, parse_primary_inner}

-- `lhs != nullptr ? lhs : inner`
unfoldable pub or_inner : Expr → Expr → Expr
or_inner null_expr inner = inner
or_inner lhs inner = lhs

-- `lhs->token = token`, for what the loop of `parse_primary` makes
unfoldable pub put_token : Token → Expr → Expr
put_token token (slice node lhs start end) = slice (record node { token = token }) lhs start end
put_token token (index_op node lhs index) = index_op (record node { token = token }) lhs index
put_token token e = e

-- `inner->token`
unfoldable pub token_of : Expr → Token
token_of null_expr = no_token
token_of (literal node value type) = node.token
token_of (binary node left op right) = node.token
token_of (unary node op right) = node.token
token_of (symbol node name) = node.token
token_of (call node callable arguments) = node.token
token_of (group node inner) = node.token
token_of (sizeof_expr node e) = node.token
token_of (nameof_expr node e) = node.token
token_of (keyword node) = node.token
token_of (member_access node target accessor is_static) = node.token
token_of (cast node mut_set type target) = node.token
token_of (named node name value) = node.token
token_of (abs node value) = node.token
token_of (ptr_op node op target) = node.token
token_of (packed node) = node.token
token_of (anon_init node initializers) = node.token
token_of (array_literal node specifier initializers) = node.token
token_of (struct_literal node name initializers) = node.token
token_of (index_op node lhs index) = node.token
token_of (slice node lhs start end) = node.token

-- How the loop of `parse_primary` ends: at its test, with `lhs`, or by the return of a literal.
pub data Indexing : Type 0 where
  at_test : Expr → Indexing
  at_literal : Expr → Indexing

-- The end of `parse_primary` behind its loop.
unfoldable pub put_inner_token : Expr → Expr → Expr
unfolding put_token token_of
put_inner_token inner null_expr = inner
put_inner_token inner lhs = put_token (token_of inner) lhs

module _ (calls : Calls) where
  -- The rest of a slice behind its colon.
  unfoldable pub parse_slice : Expr → Expr → Parser Expr
  parse_slice lhs start = do
    node ← new_node
    open_end ← peek_is TokenType.right_bracket
    end ← if open_end then pure null_expr else calls.expression
    expect TokenType.right_bracket
    pure (slice node lhs start end)

  unfoldable pub parse_index : Expr → Expr → Parser Expr
  parse_index lhs index = do
    node ← new_node
    expect TokenType.right_bracket
    pure (index_op node lhs index)

  -- the loop of `parse_primary`
  unfoldable pub index_loop : ℕ → Expr → Expr → Parser Indexing
  index_loop zero inner lhs = exhausted
  index_loop (suc n) inner lhs = match TokenType.left_bracket >>= λ found.
      if not found then pure (at_test lhs) else (do
        open_start ← peek_is TokenType.colon
        index ← if open_start then pure null_expr else calls.expression
        is_slice ← match TokenType.colon
        if is_slice then (parse_slice (or_inner lhs inner) index >>= index_loop n inner) else (do
          is_literal ← match TokenType.comma
          if is_literal
              then (parse_array_literal calls inner (more_exprs index) >>= λ e. pure (at_literal e))
              else (parse_index (or_inner lhs inner) index >>= index_loop n inner)))

  unfoldable pub parse_member : Expr → Parser Expr
  parse_member target = do
    node ← new_node
    is_static ← peek_last_is TokenType.colon_colon
    accessor ← calls.parse_primary
    pure (member_access node target accessor is_static)

  unfoldable pub parse_call : Expr → Parser Expr
  parse_call callable = do
    arguments ← collect_call_arguments calls
    node ← new_node
    expect TokenType.right_paren
    pure (call node callable arguments)

  unfoldable pub parse_suffix : Expr → Indexing → Parser Expr
  parse_suffix inner (at_literal e) = pure e
  parse_suffix inner (at_test lhs) = do
    is_member ← match_one_of (TokenType.dot ∷ TokenType.colon_colon ∷ [])
    if is_member then parse_member (or_inner lhs inner) else (do
      is_call ← match TokenType.left_paren
      if is_call then parse_call (or_inner lhs inner) else pure (put_inner_token inner lhs))

  -- `parse_primary` behind `parse_primary_inner`
  unfoldable pub primary_from : StdLib → Expr → Parser Expr
  primary_from std null_expr = parse_literal std
  primary_from std inner = index_loop calls.rounds inner null_expr >>= parse_suffix inner

  unfoldable pub parse_primary : StdLib → Parser Expr
  parse_primary std = parse_primary_inner calls >>= primary_from std

  unfoldable pub parse_unary : StdLib → Parser Expr
  parse_unary std = do
    is_unary ← match_one_of (TokenType.bang ∷ TokenType.minus ∷ [])
    if is_unary
        then (do
          op ← peek_last
          right ← calls.parse_unary
          node ← new_node
          char ← first_byte op.lexeme
          pure (unary node char right))
        else parse_primary std
