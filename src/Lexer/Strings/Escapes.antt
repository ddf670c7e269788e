-- ===== src/Lexer/Strings/Escapes.antt =====
-- `is_escape_sequence` of src/text_reader.cpp, as the literals of src/lexer.cpp call it.
use pars_c.Common.{
  ℕ, ◌<◌, Bool, true, false, ◌&&◌, ◌||◌, Option, none, some, [], ◌∷◌, ◌++◌, ◌≡◌, refl, arith, Bytes,
  length, ◌==◌, if◌then◌else◌,
}
use pars_c.TextReader.{Source, TextReader, skip, match_any, escape_letters, is_escape_sequence}
use pars_c.TextReader.View.{View}
use pars_c.TextReader.Look.{match-View, match-nil, peek_last-View}
use pars_c.Lexer.Literals.{escaped_char}

abbrev is_some {ℓ} : {A : Type ℓ} → Option A → Bool
is_some none = false
is_some (some a) = true

abbrev pub elem : ℕ → Bytes → Bool
elem e [] = false
elem e (c ∷ cs) = e == c || elem e cs

-- A backslash and a letter that stands for a byte.
abbrev pub starts_escape : ℕ → Bytes → Bool
starts_escape c [] = false
starts_escape c (e ∷ rest) = c == b'\\' && is_some (escaped_char e)

pub match_any-View :
    {s : Source} {r : TextReader} {done lexeme : Bytes} (letters : Bytes) (e : ℕ) {rest : Bytes}
    → View s r done lexeme (e ∷ rest)
    → match_any letters r ≡ (if elem e letters then (true, skip r) else (false, r))
unfolding match_any
match_any-View [] e v = refl
match_any-View (c ∷ letters) e v = ground (arith, match-View c e v, match_any-View letters e v)

pub match_any-nil :
    {s : Source} {r : TextReader} {done lexeme : Bytes} (letters : Bytes)
    → View s r done lexeme []
    → elem 0 letters ≡ false
    → match_any letters r ≡ (false, r)
unfolding match_any
match_any-nil [] v h = refl
match_any-nil (c ∷ letters) v h = ground (arith, match-nil c v, match_any-nil letters v)

pub elem-escape_letters : (e : ℕ) → elem e escape_letters ≡ is_some (escaped_char e)
unfolding escaped_char
elem-escape_letters e = ground arith

-- `is_escape_sequence`, called behind the byte `c`
pub is_escape_sequence-View :
    {s : Source} {r : TextReader} {done lexeme : Bytes} (before : Bytes) (c : ℕ) (rest : Bytes)
    → View s r done lexeme rest
    → done ++ lexeme ≡ before ++ c ∷ []
    → 0 < length before
    → is_escape_sequence r ≡ (if starts_escape c rest then (true, skip r) else (false, r))
unfolding is_escape_sequence
is_escape_sequence-View before c [] v e h =
    rw (peek_last-View before c v e h) (ground (arith, match_any-nil escape_letters v refl))
is_escape_sequence-View before c (d ∷ rest) v e h =
    rw (peek_last-View before c v e h)
      (ground (arith, match_any-View escape_letters d v, elem-escape_letters d))
