-- ===== src/Parser/Literals.antt =====
-- The literals of `parse_primary`, src/ast.cpp.
use pars_c.Common.{Bytes, [], ℕ, ◌∷◌}
use pars_c.Token.{TokenType}
use pars_c.Outcome.{expected_expression}
use pars_c.Syntax.{
  Expr, LiteralExprValue, Ty, bool_type, char_type, f32_type, i32_type, literal, str_type,
  void_pointer_type,
}
use pars_c.Parser.State.{
  Parser, StdLib, first_match, new_node, no_meaning, peek, peek_last, peek_last_is, pure, returned,
  throw, ◌>>=◌,
}

-- `lexeme[0]`, which the empty text does not have
unfoldable pub first_byte : Bytes → Parser ℕ
first_byte [] s = no_meaning
first_byte (byte ∷ bytes) s = returned byte s

unfoldable pub parse_word : Parser (LiteralExprValue × Ty)
parse_word =
    peek_last_is TokenType.true_kw >>= λ value. pure (LiteralExprValue.bool value, bool_type)

-- What a literal has as its value and its type, or the error of an expression that is none.
unfoldable pub literal_value : StdLib → Parser (LiteralExprValue × Ty)
literal_value std =
    first_match
      ((TokenType.true_kw, parse_word)
        ∷ (TokenType.false_kw, parse_word)
        ∷ (
          TokenType.integer_literal,
          peek_last >>= λ token.
              pure (LiteralExprValue.i32 (std.from_chars_i32 token.lexeme), i32_type),
        )
        ∷ (
          TokenType.decimal_literal,
          peek_last >>= λ token.
              pure (LiteralExprValue.f32 (std.from_chars_f32 token.lexeme), f32_type),
        )
        ∷ (
          TokenType.string_literal,
          peek_last >>= λ token. pure (LiteralExprValue.string token.lexeme, str_type),
        )
        ∷ (
          TokenType.char_literal,
          peek_last >>= λ token.
              first_byte token.lexeme >>= λ byte. pure (LiteralExprValue.char byte, char_type),
        )
        ∷ (TokenType.nil_kw, pure (LiteralExprValue.nil, void_pointer_type))
        ∷ [])
      (do last ← peek_last; current ← peek; throw last (expected_expression current.lexeme))

unfoldable pub parse_literal : StdLib → Parser Expr
parse_literal std = do
  node ← new_node
  (value, type) ← literal_value std
  token ← peek_last
  pure (literal (record node { token = token }) value type)
