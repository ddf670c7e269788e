-- ===== src/Lexer/Scanner/Operators.antt =====
-- The table of the operators that `advance_one` of src/lexer.cpp knows, and what it is to be the
-- longest of them that fits.
pub mod Longest
pub mod Reads
use pars_c.Common.{◌-◌, ◌<◌, [], ◌∷◌, Bytes, if◌then◌else◌, ◌==◌, List, Option, none, some}
use pars_c.Token.{TokenType}
use pars_c.Lexer.Keywords.{codes}

-- Every operator with its type, a longer one in front of those that it begins with.
abbrev pub operators : List (Bytes × TokenType)
operators =
    (codes "++", TokenType.plus_plus)
    ∷ (codes "+=", TokenType.plus_equal)
    ∷ (codes "+", TokenType.plus)
    ∷ (codes "--", TokenType.minus_minus)
    ∷ (codes "-=", TokenType.minus_equal)
    ∷ (codes "-", TokenType.minus)
    ∷ (codes "==", TokenType.equal_equal)
    ∷ (codes "=>", TokenType.arrow)
    ∷ (codes "=", TokenType.equal)
    ∷ (codes "**", TokenType.star_star)
    ∷ (codes "*=", TokenType.star_equal)
    ∷ (codes "*", TokenType.star)
    ∷ (codes "/=", TokenType.slash_equal)
    ∷ (codes "/", TokenType.forward_slash)
    ∷ (codes "<=", TokenType.less_equal)
    ∷ (codes "<", TokenType.less)
    ∷ (codes ">=", TokenType.greater_equal)
    ∷ (codes ">", TokenType.greater)
    ∷ (codes "!=", TokenType.bang_equal)
    ∷ (codes "!", TokenType.bang)
    ∷ (codes "::", TokenType.colon_colon)
    ∷ (codes ":", TokenType.colon)
    ∷ (codes "%", TokenType.percent)
    ∷ (codes "$", TokenType.dollar)
    ∷ (codes "&", TokenType.ampersand)
    ∷ (codes "|", TokenType.pipe)
    ∷ (codes "(", TokenType.left_paren)
    ∷ (codes ")", TokenType.right_paren)
    ∷ (codes "{", TokenType.left_brace)
    ∷ (codes "}", TokenType.right_brace)
    ∷ (codes "#", TokenType.hash)
    ∷ (codes "@", TokenType.at)
    ∷ (codes "~", TokenType.tilde)
    ∷ (codes ",", TokenType.comma)
    ∷ (codes ";", TokenType.semi_colon)
    ∷ (codes "?", TokenType.question)
    ∷ (codes "^", TokenType.caret)
    ∷ (codes "[", TokenType.left_bracket)
    ∷ (codes "]", TokenType.right_bracket)
    ∷ (codes "..=", TokenType.dot_dot_equal)
    ∷ (codes "...", TokenType.ellipse)
    ∷ (codes "..", TokenType.dot_dot)
    ∷ (codes ".", TokenType.dot)
    ∷ []

-- What follows `text`, if the bytes begin with it.
abbrev pub strip : Bytes → Bytes → Option Bytes
strip [] bytes = some bytes
strip (c ∷ text) [] = none
strip (c ∷ text) (d ∷ bytes) = if d == c then strip text bytes else none

abbrev or_else :
    Option Bytes → TokenType → Bytes → TokenType × Bytes × Bytes → TokenType × Bytes × Bytes
or_else none type text later = later
or_else (some rest) type text later = (type, text, rest)

-- The first operator of the table that the bytes begin with, and what follows it.
abbrev pub longest : List (Bytes × TokenType) → Bytes → TokenType × Bytes × Bytes
longest [] bytes = (TokenType.token_error, [], bytes)
longest ((text, type) ∷ table) bytes = or_else (strip text bytes) type text (longest table bytes)

-- The bytes that an operator can begin with.
abbrev pub operator_bytes : Bytes
operator_bytes =
    b'+' ∷ b'-' ∷ b'=' ∷ b'*' ∷ b'/' ∷ b'<' ∷ b'>' ∷ b'!' ∷ b':' ∷ b'%' ∷ b'$' ∷ b'&' ∷ b'|' ∷ b'('
    ∷ b')' ∷ b'{' ∷ b'}' ∷ b'#' ∷ b'@' ∷ b'~' ∷ b',' ∷ b';' ∷ b'?' ∷ b'^' ∷ b'[' ∷ b']' ∷ b'.' ∷ []

abbrev pub All {ℓ κ} : {A : Type ℓ} → (A → Type κ) → List A → Type κ
All P [] = Unit
All P (x ∷ xs) = P x × All P xs
