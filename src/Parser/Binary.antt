-- ===== src/Parser/Binary.antt =====
-- The binary operators: `parse_binary_rule` of src/ast.hpp, and its uses in src/ast.cpp.
use pars_c.Common.{List, [], if◌then◌else◌, suc, zero, ℕ, ◌∷◌}
use pars_c.Token.{TokenType}
use pars_c.Syntax.{Expr, binary}
use pars_c.Parser.State.{Calls, Parser, exhausted, match_one_of, new_node, peek_last, pure, ◌>>=◌}

-- The loop of `parse_binary_rule`, with the expression so far. The operands come from `rule`.
unfoldable pub binary_loop : ℕ → List TokenType → Parser Expr → Expr → Parser Expr
binary_loop zero ops rule left = exhausted
binary_loop (suc n) ops rule left = match_one_of ops >>= λ more.
    if more
    then (do
      op ← peek_last
      right ← rule
      node ← new_node
      binary_loop n ops rule (binary node left op.type right))
    else pure left

unfoldable pub parse_binary_rule : List TokenType → ℕ → Parser Expr → Parser Expr
parse_binary_rule ops rounds rule = rule >>= binary_loop rounds ops rule

module _ (calls : Calls) where
  unfoldable pub parse_range : Parser Expr
  parse_range =
      parse_binary_rule (TokenType.dot_dot ∷ TokenType.dot_dot_equal ∷ []) calls.rounds
        calls.parse_unary

  unfoldable pub parse_exp : Parser Expr
  parse_exp = parse_binary_rule (TokenType.star_star ∷ []) calls.rounds parse_range

  unfoldable pub parse_factor : Parser Expr
  parse_factor =
      parse_binary_rule (TokenType.star ∷ TokenType.forward_slash ∷ TokenType.percent ∷ [])
        calls.rounds parse_exp

  unfoldable pub parse_term : Parser Expr
  parse_term = parse_binary_rule (TokenType.plus ∷ TokenType.minus ∷ []) calls.rounds parse_factor

  unfoldable pub parse_comparison : Parser Expr
  parse_comparison =
      parse_binary_rule
        (TokenType.less ∷ TokenType.less_equal ∷ TokenType.greater ∷ TokenType.greater_equal ∷ [])
        calls.rounds parse_term

  unfoldable pub parse_equality : Parser Expr
  parse_equality =
      parse_binary_rule (TokenType.equal_equal ∷ TokenType.bang_equal ∷ []) calls.rounds
        parse_comparison

  unfoldable pub parse_or : Parser Expr
  parse_or = parse_binary_rule (TokenType.or_kw ∷ []) calls.rounds parse_equality

  unfoldable pub parse_and : Parser Expr
  parse_and = parse_binary_rule (TokenType.and_kw ∷ []) calls.rounds parse_or

  unfoldable pub expression : Parser Expr
  expression = parse_and
