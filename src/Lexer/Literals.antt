-- ===== src/Lexer/Literals.antt =====
-- The literals and identifiers of src/lexer.cpp: `build_digit`, `build_string`, `build_char`,
-- `build_identifier`.
use pars_c.Common.{
  zero, suc, ℕ, ◌-◌, true, false, not, ◌&&◌, Option, none, some, [], ◌∷◌, Bytes, length, drop, ◌==◌,
  if◌then◌else◌,
}
use pars_c.TextReader
use pars_c.TextReader.{
  u32, remaining, substr, TextReader, at_end, peek, peek_next, peek_last, advance, skip, slice,
  isdigit, advance_while, is_escape_sequence, get_identifier,
}
use pars_c.Arena
use pars_c.Arena.{Arena, write, get_slice}
use pars_c.Outcome.{Outcome, ok, undefined, ◌>>=◌}
use pars_c.Token.{TokenType, Token}
use pars_c.Lexer.Keywords.{codes, find_keyword}
use pars_c.Lexer.State.{Lexer, with_reader, build_token_with, build_token, build_error}

-- the local function of `build_digit`
unfoldable pub scan_digits : TextReader → TextReader
scan_digits r = advance_while (λ s. not (at_end s) && isdigit (peek s)) r

unfoldable pub build_digit : Lexer → Token × Lexer
build_digit l =
    let r = scan_digits l.reader in
    if peek r == b'.' && not (peek_next r == b'.')
    then (if not (isdigit (peek (skip r)))
        then build_error (codes "expected digit after '.'") (with_reader l (skip r))
        else build_token TokenType.decimal_literal (with_reader l (scan_digits (skip r))))
    else build_token TokenType.integer_literal (with_reader l r)

-- `none`: the switch has no default, and the function then ends without a `return`.
unfoldable pub escaped_char : ℕ → Option ℕ
escaped_char c =
    if c == b'n'
    then some 10
    else if c == b't'
    then some 9
    else if c == b'0'
    then some 0
    else if c == b'r'
    then some 13
    else if c == b'a'
    then some 7
    else if c == b'b'
    then some 8
    else if c == b'f'
    then some 12
    else if c == b'v'
    then some 11
    else if c == b'\\'
    then some c
    else if c == b'"'
    then some c
    else if c == b'\''
    then some c
    else none

abbrev pub with_buffer : Lexer → Arena → Lexer
with_buffer l a = record l { escape_buffer = a }

-- `UINT32_MAX`, which stands for: no escape sequence so far
abbrev pub no_start : ℕ
no_start = 4294967295

-- On the first escape sequence what was read so far, less the two bytes of the sequence, is
-- copied to the buffer.
unfoldable pub start_escape : Lexer → ℕ → Lexer × ℕ
start_escape l start =
    if start == no_start
    then (let (s, r) = slice l.reader in
        (
          with_buffer (with_reader l r) (write (substr s 0 (length s - 2)) l.escape_buffer),
          u32 l.escape_buffer.occupied,
        ))
    else (l, start)

unfoldable pub write_escaped : Option ℕ → Lexer × ℕ → Outcome (Lexer × ℕ)
write_escaped none l = undefined
write_escaped (some echar) (l, start) =
    ok (with_buffer l (write (echar ∷ []) l.escape_buffer), start)

-- one round of the loop of `build_string`, behind the read of `c`
unfoldable pub string_round : ℕ → Lexer → ℕ → Outcome (Lexer × ℕ)
string_round c l start =
    let (found, r) = is_escape_sequence l.reader in
    let escape =
      write_escaped (escaped_char (peek_last r)) (start_escape (with_reader l r) start) in
    if found
    then escape
    else if not (start == no_start)
    then ok (with_buffer l (write (c ∷ []) l.escape_buffer), start)
    else ok (l, start)

unfoldable pub string_loop : ℕ → Lexer → ℕ → Outcome (Lexer × ℕ)
string_loop zero l start = ok (l, start)
string_loop (suc fuel) l start = elim (not (at_end l.reader) && not (peek l.reader == b'"')) [
  | false ↦ ok (l, start)
  | true ↦
      string_round (advance l.reader).0 (with_reader l (skip l.reader)) start >>= λ (l', start').
      string_loop fuel l' start'
]

-- the lexeme, with its leading quote, and its `end_size`
unfoldable pub string_lexeme : Lexer → ℕ → Bytes × ℕ × Lexer
string_lexeme l start =
    if not (start == no_start)
    then (let lexeme = get_slice start l.escape_buffer in (lexeme, length lexeme, l))
    else (let (lexeme, r) = slice l.reader in (lexeme, length lexeme - 2, with_reader l r))

unfoldable pub string_end : Lexer × ℕ → Token × Lexer
string_end (l, start) =
    let (found, r) = TextReader.match b'"' l.reader in
    let (lexeme, end_size, l') = string_lexeme (with_reader l r) start in
    let (token, l'') = build_token_with TokenType.string_literal lexeme l' in
    if not found
    then build_error (codes "unclosed string found") (with_reader l r)
    else (record token { lexeme = substr token.lexeme 1 end_size }, l'')

unfoldable pub build_string : Lexer → Outcome (Token × Lexer)
build_string l = string_loop (remaining l.reader) l no_start >>= λ done. ok (string_end done)

unfoldable pub char_end : Bytes × Lexer → Token × Lexer
char_end (lexeme, l) =
    let (found, r) = TextReader.match b'\'' l.reader in
    if not found
    then build_error (codes "unclosed or empty char found") (with_reader l r)
    else build_token_with TokenType.char_literal lexeme (with_reader l r)

-- The view of the escaped byte is of the last byte written.
unfoldable pub escaped_lexeme : Option ℕ → Lexer → Outcome (Bytes × Lexer)
escaped_lexeme none l = undefined
escaped_lexeme (some echar) l =
    let a = write (echar ∷ []) l.escape_buffer in
    ok (Arena.view_of a.memory (a.occupied - 1) 1, with_buffer l a)

unfoldable pub build_char : Lexer → Outcome (Token × Lexer)
build_char l =
    let (found, r) = is_escape_sequence (skip l.reader) in
    let escaped = escaped_lexeme (escaped_char (peek_last r)) (with_reader l r) in
    let (s, r') = slice r in
    (if found then escaped else ok (drop 1 s, with_reader l r')) >>= λ done. ok (char_end done)

abbrev retype : Option TokenType → Token → Token
retype none token = token
retype (some type) token = record token { type = type }

unfoldable pub build_identifier : Lexer → Token × Lexer
build_identifier l =
    let (identifier, r) = get_identifier l.reader in
    let (token, l') = build_token TokenType.identifier (with_reader l r) in
    (retype (find_keyword identifier) (record token { lexeme = identifier }), l')
