-- ===== src/TextReader.antt =====
-- src/text_reader.hpp and src/text_reader.cpp: the cursor over a source text that the lexer
-- reads through. Bytes are numbers below 256.
pub mod View
pub mod Scan
pub mod Look
use pars_c.Common.{
  ℕ, ◌+◌, ◌-◌, ◌%◌, Bool, true, false, not, ◌&&◌, ◌||◌, [], ◌∷◌, Bytes, length, get_or, take, drop,
  ltb, leb, ◌==◌, if◌then◌else◌, while,
}

-- A `std::string_view`: its bytes, and what the memory behind its end holds, since `operator[]`
-- does not check the index.
pub record Source : Type 0 where
  pub bytes : Bytes
  pub beyond : ℕ → ℕ

pub record TextReader : Type 0 where
  pub offset : ℕ
  pub current : ℕ
  pub current_line : ℕ
  pub current_column : ℕ
  pub source : Source

abbrev pub u32 : ℕ → ℕ
u32 n = n % 4294967296

abbrev pub u16 : ℕ → ℕ
u16 n = n % 65536

abbrev pub size : Source → ℕ
size s = length s.bytes

-- `m_source[i]`
abbrev pub at : Source → ℕ → ℕ
at s i = if ltb i (size s) then get_or s.bytes i 0 else s.beyond (i - size s)

abbrev pub substr : Bytes → ℕ → ℕ → Bytes
substr s pos n = take n (drop pos s)

-- The fields that `set_source` does not assign it has no need of.
unfoldable pub set_source : Source → TextReader
set_source s = record { source = s; current = 0; offset = 0; current_line = 1; current_column = 1 }

unfoldable pub at_end : TextReader → Bool
at_end r = leb (size r.source) r.offset

unfoldable pub consume : TextReader → ℕ → TextReader
consume r c =
    let moved = record r { offset = u32 (r.offset + 1) } in
    if c == b'\n'
    then record moved { current_line = u32 (r.current_line + 1); current_column = 1 }
    else record moved { current_column = u16 (r.current_column + 1) }

unfoldable pub peek : TextReader → ℕ
peek r = if at_end r then 0 else at r.source r.offset

unfoldable pub advance : TextReader → ℕ × TextReader
advance r = if at_end r then (0, r) else (at r.source r.offset, consume r (at r.source r.offset))

-- `advance();` as a statement
abbrev pub skip : TextReader → TextReader
skip r = (advance r).1

unfoldable pub peek_next : TextReader → ℕ
peek_next r =
    if ltb (size r.source) (u32 (r.offset + 1)) then 0 else at r.source (u32 (r.offset + 1))

-- `m_offset - 1` is a subtraction on u32.
unfoldable pub peek_last : TextReader → ℕ
peek_last r =
    let before = u32 (r.offset + 4294967295) in if leb before 0 then 0 else at r.source before

unfoldable pub sync : TextReader → TextReader
sync r = record r { current = r.offset }

unfoldable pub slice : TextReader → Bytes × TextReader
slice r = (substr r.source.bytes r.current (r.offset - r.current), record r { current = r.offset })

unfoldable pub is_blank : ℕ → Bool
is_blank c = c == b' ' || c == b'\t'

unfoldable pub is_insignificant : ℕ → Bool
is_insignificant c = is_blank c || c == b'\r' || c == b'\n'

-- `isdigit` and `isalnum` of the C locale
unfoldable pub isdigit : ℕ → Bool
isdigit c = leb b'0' c && leb c b'9'

unfoldable pub isalnum : ℕ → Bool
isalnum c = isdigit c || (leb b'A' c && leb c b'Z') || (leb b'a' c && leb c b'z')

unfoldable pub is_identifier : ℕ → Bool
is_identifier c = isalnum c || c == b'_'

-- The bytes that are left: every round of the loops below advances, so that they bound the
-- rounds.
abbrev pub remaining : TextReader → ℕ
remaining r = size r.source - r.offset

-- `while (test) advance();`
unfoldable pub advance_while : (TextReader → Bool) → TextReader → TextReader
advance_while test r = while (remaining r) test skip r

unfoldable pub get_identifier : TextReader → Bytes × TextReader
get_identifier r = slice (advance_while (λ s. not (at_end s) && is_identifier (peek s)) r)

unfoldable pub get_until_blank_or : ℕ → TextReader → Bytes × TextReader
get_until_blank_or c r = slice (
    advance_while (λ s. not (at_end s) && not (is_blank (peek s)) && not (peek_next s == c))
      (sync r))

-- The loop's state is the reader and the counter `i`.
unfoldable pub get_line : TextReader → Bytes × TextReader
get_line r =
    let (end, i) =
      while (remaining r) (λ (s, i). not (at_end s) && not (peek s == b'\n'))
        (λ (s, i). (skip s, i + 1)) (r, 0) in
    (substr end.source.bytes end.current i, end)

-- `!at_end() && blank_only ? is_blank(peek()) : is_insignificant(peek())`: the conditional
-- operator binds more loosely than `&&`.
unfoldable pub skip_insignificant : Bool → TextReader → TextReader
skip_insignificant blank_only r = sync (
    advance_while
      (λ s. if not (at_end s) && blank_only then is_blank (peek s) else is_insignificant (peek s))
      r)

unfoldable pub skip_until : ℕ → TextReader → TextReader
skip_until c r = advance_while (λ s. not (at_end s) && not (peek s == c)) r

unfoldable pub match : ℕ → TextReader → Bool × TextReader
match c r = if peek r == c then (true, skip r) else (false, r)

unfoldable pub match_next : ℕ → TextReader → Bool × TextReader
match_next c r = if peek_next r == c then (true, skip r) else (false, r)

-- The chain of `||`: the first byte that matches is consumed.
unfoldable pub match_any : Bytes → TextReader → Bool × TextReader
match_any [] r = (false, r)
match_any (c ∷ cs) r =
    let rest = match_any cs r in let (found, s) = match c r in if found then (true, s) else rest

abbrev pub escape_letters : Bytes
escape_letters = b'n' ∷ b't' ∷ b'0' ∷ b'r' ∷ b'a' ∷ b'b' ∷ b'f' ∷ b'v' ∷ b'\\' ∷ b'"' ∷ b'\'' ∷ []

unfoldable pub is_escape_sequence : TextReader → Bool × TextReader
is_escape_sequence r = if peek_last r == b'\\' then match_any escape_letters r else (false, r)
