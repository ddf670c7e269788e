-- ===== src/Tests/Lexing.antt =====
-- Texts put through the lexer.
use Prim.Native.String.{String}
use pars_c.Common.{ℕ, zero, suc, ◌≡◌, refl, none, List, [], ◌∷◌, Bytes, while, bytes_eq}
use pars_c.TextReader.{
  Source, TextReader, consume, at_end, peek, advance, peek_next, peek_last, sync, slice, is_blank,
  is_insignificant, isdigit, isalnum, is_identifier, advance_while, get_identifier,
  skip_insignificant, skip_until, match_any, is_escape_sequence,
}
use pars_c.TextReader
use pars_c.Token.{TokenType, Token}
use pars_c.Outcome.{Outcome, ok, ◌>>=◌}
use pars_c.Arena.{write, copy_to, view_of, get_slice}
use pars_c.Lexer.Keywords.{codes, find, find_keyword}
use pars_c.Lexer.Literals.{
  scan_digits, build_digit, escaped_char, start_escape, write_escaped, string_round, string_loop,
  string_lexeme, string_end, build_string, char_end, escaped_lexeme, build_char, build_identifier,
}
use pars_c.Lexer.State.{
  Lexer, build_token_with, build_token, build_token2, build_token3, build_error,
}
use pars_c.Lexer.Scanner.{skip_comments, build_dot, build_default, build_for, advance_one}

abbrev pub source_of : String → Source
source_of text = record { bytes = codes text; beyond = λ i. 0 }

abbrev pub lexer_of : String → Lexer
lexer_of text = record {
  file_id = 7;
  reader = TextReader.set_source (source_of text);
  last_token = none;
  current_token = none;
  next_token = none;
  escape_buffer = record { memory = λ i. 0; capacity = 100; occupied = 0 };
}

abbrev brief : Token → TokenType × Bytes
brief t = (t.type, t.lexeme)

lex : ℕ → Lexer → Outcome (List (TokenType × Bytes))
unfolding while bytes_eq consume TextReader.set_source at_end peek advance peek_next peek_last sync
    slice is_blank is_insignificant isdigit isalnum is_identifier advance_while get_identifier
    skip_insignificant skip_until TextReader.match match_any is_escape_sequence write copy_to
    view_of get_slice scan_digits build_digit escaped_char start_escape write_escaped string_round
    string_loop string_lexeme string_end build_string char_end escaped_lexeme build_char
    build_identifier build_token_with build_token build_token2 build_token3 build_error
    skip_comments build_dot build_default build_for advance_one find find_keyword
lex zero l = ok []
lex (suc n) l = advance_one l >>= λ (t, l'). lex n l' >>= λ ts. ok (brief t ∷ ts)

lex_line :
    lex 8 (lexer_of "let x1 = 10.5 // rest\n == 'c' 3..4")
    ≡ ok (
        (TokenType.let_kw, codes "let")
        ∷ (TokenType.identifier, codes "x1")
        ∷ (TokenType.equal, codes "=")
        ∷ (TokenType.decimal_literal, codes "10.5")
        ∷ (TokenType.equal_equal, codes "==")
        ∷ (TokenType.char_literal, codes "c")
        ∷ (TokenType.integer_literal, codes "3")
        ∷ (TokenType.dot_dot, codes "..")
        ∷ [])
unfolding lex
lex_line = refl

lex_string :
    lex 4 (lexer_of "\"a\\nb\\\"\" \"\" \"plain\" '\\t'")
    ≡ ok (
        (TokenType.string_literal, codes "a\nb\"")
        ∷ (TokenType.string_literal, codes "")
        ∷ (TokenType.string_literal, codes "plain")
        ∷ (TokenType.char_literal, codes "\t")
        ∷ [])
unfolding lex
lex_string = refl
