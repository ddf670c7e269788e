-- ===== src/Lexer/Window.antt =====
-- The window of src/lexer.cpp on the tokens: the last, the current and the next one.
pub mod Look
pub mod Matched
use pars_c.Common.{Bool, true, false, not, Option, none, some, if◌then◌else◌}
use pars_c.TextReader.{at_end}
use pars_c.Outcome.{Outcome, ok, thrown, expected, ◌>>=◌}
use pars_c.Token.{TokenType, Token, type_eq, no_token}
use pars_c.Lexer.State.{Lexer}
use pars_c.Lexer.Scanner.{advance_one}

-- The tokens move up by one; the new current one is `token`.
abbrev pub move_up : Token → Lexer → Token × Lexer
move_up token l = (token, record l { last_token = l.current_token; current_token = some token })

unfoldable pub advance_to : Option Token → Lexer → Outcome (Token × Lexer)
advance_to (some next) l = ok (move_up next (record l { next_token = none }))
advance_to none l = advance_one l >>= λ (token, l'). ok (move_up token l')

unfoldable pub advance : Lexer → Outcome (Token × Lexer)
advance l = advance_to l.next_token l

unfoldable pub peek_from : Option Token → Lexer → Outcome (Token × Lexer)
peek_from (some current) l = ok (current, l)
peek_from none l = advance l

unfoldable pub peek : Lexer → Outcome (Token × Lexer)
peek l = peek_from l.current_token l

-- `peek(type)`
unfoldable pub peek_is : TokenType → Lexer → Outcome (Bool × Lexer)
peek_is type l = peek l >>= λ (token, l'). ok (type_eq token.type type, l')

unfoldable pub peek_next_from : Option Token → Lexer → Outcome (Token × Lexer)
peek_next_from (some next) l = ok (next, l)
peek_next_from none l =
    advance_one l >>= λ (token, l'). ok (token, record l' { next_token = some token })

unfoldable pub peek_next : Lexer → Outcome (Token × Lexer)
peek_next l = peek_next_from l.next_token l

-- `peek_next(type)`
unfoldable pub peek_next_is : TokenType → Lexer → Outcome (Bool × Lexer)
peek_next_is type l = peek_next l >>= λ (token, l'). ok (type_eq token.type type, l')

-- `m_last_token.value_or(Token{})`
abbrev pub value_or : Option Token → Token
value_or none = no_token
value_or (some token) = token

unfoldable pub peek_last : Lexer → Token
peek_last l = value_or l.last_token

-- `peek_last(type)`
unfoldable pub peek_last_is : TokenType → Lexer → Bool
peek_last_is type l = type_eq (peek_last l).type type

-- `advance(); return true;` behind a test
unfoldable pub advance_if : Bool × Lexer → Outcome (Bool × Lexer)
advance_if (true, l) = advance l >>= λ (_, l'). ok (true, l')
advance_if (false, l) = ok (false, l)

unfoldable pub match : TokenType → Lexer → Outcome (Bool × Lexer)
match type l = peek_is type l >>= advance_if

unfoldable pub match_next : TokenType → Lexer → Outcome (Bool × Lexer)
match_next type l = peek_next_is type l >>= advance_if

unfoldable pub match_second : TokenType → Bool × Lexer → Outcome (Bool × Lexer)
match_second b (false, l) = ok (false, l)
match_second b (true, l) = peek_next_is b l >>= λ (second, l').
    if second
    then (advance l' >>= λ (_, l''). advance l'' >>= λ (_, l'''). ok (true, l'''))
    else ok (false, l')

unfoldable pub match_both : TokenType → TokenType → Lexer → Outcome (Bool × Lexer)
match_both a b l = peek_is a l >>= match_second b

unfoldable pub expect_found : TokenType → Bool × Lexer → Outcome (Token × Lexer)
expect_found type (true, l) = advance l >>= λ (_, l'). ok (peek_last l', l')
expect_found type (false, l) =
    peek l >>= λ (token, _). thrown (record { token = token; reason = expected type token.type })

unfoldable pub expect : TokenType → Lexer → Outcome (Token × Lexer)
expect type l = peek_is type l >>= expect_found type

unfoldable pub has_next : Lexer → Bool
has_next l = not (at_end l.reader)
