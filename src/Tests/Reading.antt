-- ===== src/Tests/Reading.antt =====
-- Witnesses of the theorems on the lexer, at short texts.
use pars_c.Lexer.Words.{build_identifier-Lexes}
use pars_c.Lexer.Chars.{build_char-character}
use pars_c.Lexer.Scanner.Gaps.{skip_comments-Skips, Skips}
use pars_c.Lexer.Scanner.Operators.Reads.{build_for-longest}
use pars_c.Lexer.Numbers.{build_digit-number}
use pars_c.Lexer.Scanner.{skip_comments, build_for}
use pars_c.Common.{false, bytes_eq, ◌≤◌, ℕ, refl, arith, []}
use pars_c.TextReader
use pars_c.TextReader.{skip_insignificant, skip, isalnum, Source, is_identifier, isdigit}
use pars_c.TextReader.View.{set_source-View, advance-View}
use pars_c.Token.{TokenType}
use pars_c.Outcome.{ok}
use pars_c.Arena.Slices.{HasRoom}
use pars_c.Lexer.Keywords.{find, find_keyword, codes}
use pars_c.Lexer.State.{Lexer, with_reader, Lexes}
use pars_c.Lexer.Literals.{build_identifier, build_char, escaped_char, build_digit, build_string}
use pars_c.Lexer.Strings.{Decodes, Unclosed, build_string-Decodes, build_string-Unclosed}
use pars_c.Tests.Lexing.{source_of, lexer_of}

abbrev tab : Source
tab = source_of "\"a\\t\" b"

abbrev open_text : Source
open_text = source_of "\"ab"

-- the lexer behind the first byte of a text
abbrev behind_first : (s : Source) → Lexer
behind_first s = with_reader (lexer_of "") (TextReader.skip (TextReader.set_source s))

room : (n : ℕ) → n ≤ 100 → HasRoom (lexer_of "").escape_buffer n
room n h = record { within = omega arith; addressable = omega arith }

build_string-Decodes_example :
    Lexes tab (build_string (behind_first tab)) TokenType.string_literal (codes "a\t") (codes " b")
unfolding escaped_char
build_string-Decodes_example =
    build_string-Decodes (behind_first tab) (advance-View (set_source-View tab (omega arith))).1
      (room 7 (omega arith))
      (Decodes.plain refl refl (Decodes.escape refl refl (Decodes.close refl)))

build_string-Unclosed_example :
    Lexes open_text
      (build_string (behind_first open_text))
      TokenType.error_kw
      (codes "unclosed string found")
      []
build_string-Unclosed_example =
    build_string-Unclosed (behind_first open_text)
      (advance-View (set_source-View open_text (omega arith))).1 (room 3 (omega arith))
      (Unclosed.plain refl refl (Unclosed.plain refl refl Unclosed.end))

abbrev decimal : Source
decimal = source_of "12.50;"

build_digit-number_example :
    Lexes decimal
      (ok (build_digit (behind_first decimal)))
      TokenType.decimal_literal
      (codes "12.50")
      (codes ";")
unfolding isdigit
build_digit-number_example =
    build_digit-number (behind_first decimal)
      (advance-View (set_source-View decimal (omega arith))).1

abbrev word : Source
word = source_of "while_1 x"

build_identifier-Lexes_example :
    Lexes word
      (ok (build_identifier (behind_first word)))
      TokenType.identifier
      (codes "while_1")
      (codes " x")
unfolding is_identifier isalnum isdigit find_keyword find bytes_eq
build_identifier-Lexes_example =
    build_identifier-Lexes (behind_first word) (advance-View (set_source-View word (omega arith))).1

abbrev quoted : Source
quoted = source_of "'\\n';"

build_char-character_example :
    Lexes quoted (build_char (behind_first quoted)) TokenType.char_literal (codes "\n") (codes ";")
unfolding escaped_char
build_char-character_example =
    build_char-character (behind_first quoted) (codes "\\n';")
      (advance-View (set_source-View quoted (omega arith))).1 (room 1 (omega arith))

abbrev range : Source
range = source_of "..=9"

build_for-longest_example :
    Lexes range
      (build_for b'.' (behind_first range))
      TokenType.dot_dot_equal
      (codes "..=")
      (codes "9")
build_for-longest_example =
    build_for-longest (behind_first range) b'.' (codes ".=9") refl
      (advance-View (set_source-View range (omega arith))).1

abbrev commented : Source
commented = source_of "  // a\n // b\n x"

skip_comments-Skips_example :
    Skips commented
      (skip_comments (skip_insignificant false (TextReader.set_source commented)))
      commented.bytes
skip_comments-Skips_example = skip_comments-Skips (set_source-View commented (omega arith))
