-- ===== src/Lexer/Scanner.antt =====
-- `advance_one` of src/lexer.cpp: one token read off the text.
pub mod Gaps
pub mod Tokens
pub mod Operators
pub mod Kept
pub mod Switch
use pars_c.Common.{ℕ, false, ◌&&◌, [], ◌==◌, if◌then◌else◌, while}
use pars_c.TextReader.{
  TextReader, peek, peek_next, advance, isdigit, is_identifier, skip_insignificant, skip_until,
  match, remaining,
}
use pars_c.Outcome.{Outcome, ok, thrown, unexpected_token}
use pars_c.Token.{TokenType, Token}
use pars_c.Lexer.State.{Lexer, with_reader, build_token, build_token2, build_token3, build_error}
use pars_c.Lexer.Literals.{build_digit, build_string, build_char, build_identifier}

-- Each round of the loop over line comments reads two bytes or more.
unfoldable pub skip_comments : TextReader → TextReader
skip_comments r =
    while (remaining r) (λ s. peek s == b'/' && peek_next s == b'/')
      (λ s. skip_insignificant false (skip_until b'\n' s)) r

unfoldable pub build_dot : Lexer → Token × Lexer
build_dot l =
    let (dot2, r2) = match b'.' l.reader in
    let (equal, r3) = match b'=' r2 in
    let (dot3, r4) = match b'.' r3 in
    if dot2
    then (if equal
        then build_token TokenType.dot_dot_equal (with_reader l r3)
        else if dot3
        then build_token TokenType.ellipse (with_reader l r4)
        else build_token TokenType.dot_dot (with_reader l r4))
    else build_token TokenType.dot (with_reader l r2)

unfoldable pub build_default : ℕ → Lexer → Outcome (Token × Lexer)
build_default c l =
    if isdigit c
    then ok (build_digit l)
    else if is_identifier c
    then ok (build_identifier l)
    else thrown (record { token = (build_error [] l).0; reason = unexpected_token })

-- the switch on the byte just read
unfoldable pub build_for : ℕ → Lexer → Outcome (Token × Lexer)
build_for c l =
    if c == b'+'
    then ok (build_token3 b'+' TokenType.plus_plus b'=' TokenType.plus_equal TokenType.plus l)
    else if c == b'-'
    then ok (build_token3 b'-' TokenType.minus_minus b'=' TokenType.minus_equal TokenType.minus l)
    else if c == b'='
    then ok (build_token3 b'=' TokenType.equal_equal b'>' TokenType.arrow TokenType.equal l)
    else if c == b'*'
    then ok (build_token3 b'*' TokenType.star_star b'=' TokenType.star_equal TokenType.star l)
    else if c == b'/'
    then ok (build_token2 b'=' TokenType.slash_equal TokenType.forward_slash l)
    else if c == b'<'
    then ok (build_token2 b'=' TokenType.less_equal TokenType.less l)
    else if c == b'>'
    then ok (build_token2 b'=' TokenType.greater_equal TokenType.greater l)
    else if c == b'!'
    then ok (build_token2 b'=' TokenType.bang_equal TokenType.bang l)
    else if c == b':'
    then ok (build_token2 b':' TokenType.colon_colon TokenType.colon l)
    else if c == b'%'
    then ok (build_token TokenType.percent l)
    else if c == b'$'
    then ok (build_token TokenType.dollar l)
    else if c == b'&'
    then ok (build_token TokenType.ampersand l)
    else if c == b'|'
    then ok (build_token TokenType.pipe l)
    else if c == b'('
    then ok (build_token TokenType.left_paren l)
    else if c == b')'
    then ok (build_token TokenType.right_paren l)
    else if c == b'{'
    then ok (build_token TokenType.left_brace l)
    else if c == b'}'
    then ok (build_token TokenType.right_brace l)
    else if c == b'#'
    then ok (build_token TokenType.hash l)
    else if c == b'@'
    then ok (build_token TokenType.at l)
    else if c == b'~'
    then ok (build_token TokenType.tilde l)
    else if c == b','
    then ok (build_token TokenType.comma l)
    else if c == b';'
    then ok (build_token TokenType.semi_colon l)
    else if c == b'?'
    then ok (build_token TokenType.question l)
    else if c == b'^'
    then ok (build_token TokenType.caret l)
    else if c == b'['
    then ok (build_token TokenType.left_bracket l)
    else if c == b']'
    then ok (build_token TokenType.right_bracket l)
    else if c == b'"'
    then build_string l
    else if c == b'\''
    then build_char l
    else if c == 0
    then ok (build_token TokenType.eof l)
    else if c == b'.'
    then ok (build_dot l)
    else build_default c l

unfoldable pub advance_one : Lexer → Outcome (Token × Lexer)
advance_one l =
    let (c, r) = advance (skip_comments (skip_insignificant false l.reader)) in
    build_for c (with_reader l r)
