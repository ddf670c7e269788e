-- ===== src/Tests/Looking.antt =====
-- Witnesses of the theorems on the window of tokens.
use pars_c.Common.{false, ◌≡◌, refl, some}
use pars_c.Token.{TokenType, Token, type_eq}
use pars_c.Outcome.{ok}
use pars_c.Lexer.Keywords.{codes}
use pars_c.Lexer.State.{Lexer}
use pars_c.Lexer.Window.{
  match_both, advance, advance_to, peek, peek_from, peek_next, peek_next_from, expect,
}
use pars_c.Lexer.Window.Look.{Ahead, peek_next-Ahead, expect-peek, match_both-peek}
use pars_c.Tests.Lexing.{lexer_of}

abbrev plus_token : Token
plus_token = record {
  location = record { offset = 1; line = 1; file_id = 7; column = 2 };
  type = TokenType.plus;
  lexeme = codes "+";
}

abbrev percent : Token
percent = record {
  location = record { offset = 2; line = 1; file_id = 7; column = 3 };
  type = TokenType.percent;
  lexeme = codes "%";
}

abbrev held : Lexer
held = record (lexer_of "; x") { current_token = some plus_token; next_token = some percent }

abbrev moved : Lexer
moved = record (lexer_of "; x") { last_token = some plus_token; current_token = some percent }

peek_next-Ahead_example : Ahead held (advance held) (percent, held)
unfolding peek_next peek_next_from
peek_next-Ahead_example = peek_next-Ahead held percent held refl

expect-peek_example : expect TokenType.plus held ≡ ok (plus_token, moved)
unfolding peek peek_from advance advance_to type_eq
expect-peek_example = expect-peek TokenType.plus held plus_token held refl

match_both-peek_example : match_both TokenType.plus TokenType.minus held ≡ ok (false, held)
unfolding peek peek_from peek_next peek_next_from type_eq
match_both-peek_example =
    match_both-peek TokenType.plus TokenType.minus held plus_token held percent held refl refl
