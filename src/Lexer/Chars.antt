-- ===== src/Lexer/Chars.antt =====
-- Character literals: `build_char` of src/lexer.cpp against a description on the bytes alone.
use pars_c.Common.{
  ℕ, ◌-◌, ◌<◌, true, false, none, some, inl, inr, refl, sym, ap, ◌∙◌, arith, [], ◌∷◌, ◌++◌,
  append_assoc, length, length-append, ◌≡◌, Option-cases, Bool-cases, ==_iff, Option, Bytes,
  if◌then◌else◌, ◌==◌,
}
use pars_c.TextReader.{Source, TextReader, skip, sync, peek_last, is_escape_sequence}
use pars_c.TextReader.View.{View, advance-View, advance-nil, slice-View}
use pars_c.TextReader.Look.{match-View, match-nil, peek_last-View, peek_last-first}
use pars_c.Arena.{write}
use pars_c.Arena.Slices.{HasRoom, view_of-write_end, occupied-write}
use pars_c.Outcome.{ok}
use pars_c.Token.{TokenType}
use pars_c.Lexer.Keywords.{codes}
use pars_c.Lexer.State.{Lexer, with_reader, build_error, Lexes, build_token_with-Lexes}
use pars_c.Lexer.Literals.{escaped_char, escaped_lexeme, char_end, build_char, with_buffer}
use pars_c.Lexer.Strings.Escapes.{starts_escape, is_escape_sequence-View}

-- What the lexeme and the bytes behind it make: a literal, if they begin with a quote.
abbrev pub closing : Bytes → Bytes → TokenType × Bytes × Bytes
closing lexeme [] = (TokenType.error_kw, codes "unclosed or empty char found", [])
closing lexeme (q ∷ rest) =
    if q == b'\''
    then (TokenType.char_literal, lexeme, rest)
    else (TokenType.error_kw, codes "unclosed or empty char found", q ∷ rest)

abbrev pub escaped_or : ℕ → Option ℕ → ℕ → Bytes → TokenType × Bytes × Bytes
escaped_or c none e rest = closing (c ∷ []) (e ∷ rest)
escaped_or c (some x) e rest = closing (x ∷ []) rest

-- The type, the lexeme and the rest for what stands behind the opening quote.
abbrev pub character : Bytes → TokenType × Bytes × Bytes
character [] = (TokenType.error_kw, codes "unclosed or empty char found", [])
character (c ∷ []) = closing (c ∷ []) []
character (c ∷ e ∷ rest) =
    if c == b'\\' then escaped_or c (escaped_char e) e rest else closing (c ∷ []) (e ∷ rest)

char_end-closing :
    {s : Source} (l : Lexer) {done mark : Bytes} (c : ℕ) (rest : Bytes)
    → View s l.reader done mark rest
    → let k = closing (c ∷ []) rest in Lexes s (ok (char_end (c ∷ [], l))) k.0 k.1 k.2
unfolding char_end build_error
char_end-closing l c [] v =
    rw (match-nil b'\'' v) (build_token_with-Lexes l TokenType.error_kw _ _ v)
char_end-closing l c (q ∷ rest) v = elim (Bool-cases (q == b'\'')) [
  | inl quote ↦
      rw (match-View b'\'' q v, quote)
        (build_token_with-Lexes (with_reader l (skip l.reader)) TokenType.char_literal c []
          (advance-View v).1)
  | inr other ↦ rw (match-View b'\'' q v, other) (build_token_with-Lexes l TokenType.error_kw _ _ v)
]

quoted : (done : Bytes) (c : ℕ) → 0 < length (done ++ c ∷ [])
quoted done c = omega (arith, length-append {0} done (c ∷ []))

build_char-plain :
    {s : Source} (l : Lexer) {done : Bytes} (c : ℕ) (rest : Bytes)
    → View s l.reader done (b'\'' ∷ []) (c ∷ rest)
    → starts_escape c rest ≡ false
    → let k = closing (c ∷ []) rest in Lexes s (build_char l) k.0 k.1 k.2
unfolding build_char
build_char-plain l {done} c rest v h =
    let v1 = (advance-View v).1 in
    let none_found : is_escape_sequence (skip l.reader) ≡ (false, skip l.reader) = rw h at (
      is_escape_sequence-View (done ++ b'\'' ∷ []) c rest v1
        (sym (append_assoc done (b'\'' ∷ []) (c ∷ []))) (quoted done b'\'')) in
    let (cut, v2) = slice-View v1 in
    rw (none_found, cut) (char_end-closing (with_reader l (sync (skip l.reader))) c rest v2)

build_char-escaped :
    {s : Source} (l : Lexer) {done : Bytes} (e x : ℕ) (rest : Bytes)
    → View s l.reader done (b'\'' ∷ []) (b'\\' ∷ e ∷ rest)
    → HasRoom l.escape_buffer 1
    → escaped_char e ≡ some x
    → let k = closing (x ∷ []) rest in Lexes s (build_char l) k.0 k.1 k.2
unfolding build_char escaped_lexeme
build_char-escaped l {done} e x rest v room h =
    let v1 = (advance-View v).1 in
    let v2 = (advance-View v1).1 in
    let found : is_escape_sequence (skip l.reader) ≡ (true, skip (skip l.reader)) =
      is_escape_sequence-View (done ++ b'\'' ∷ []) b'\\' (e ∷ rest) v1
        (sym (append_assoc done (b'\'' ∷ []) (b'\\' ∷ []))) (quoted done b'\'')
      ∙ rw (h, starts_escape) in
    let letter : peek_last (skip (skip l.reader)) ≡ e =
      peek_last-View (done ++ (b'\'' ∷ b'\\' ∷ [])) e v2
        (sym (append_assoc done (b'\'' ∷ b'\\' ∷ []) (e ∷ [])))
        (omega (arith, length-append {0} done (b'\'' ∷ b'\\' ∷ []))) in
    let place : (write (x ∷ []) l.escape_buffer).occupied - 1 ≡ l.escape_buffer.occupied =
      omega (arith, occupied-write l.escape_buffer (x ∷ []) room) in
    rw (found, letter, h, place, view_of-write_end l.escape_buffer (x ∷ []))
      (char_end-closing
        (with_buffer (with_reader l (skip (skip l.reader))) (write (x ∷ []) l.escape_buffer)) x rest
        v2)

quote_no_escape :
    {s : Source} {r : TextReader} (done : Bytes)
    → View s r done (b'\'' ∷ []) []
    → is_escape_sequence r ≡ (false, r)
unfolding is_escape_sequence
quote_no_escape [] v = rw (peek_last-first v refl)
quote_no_escape (d ∷ done) v = rw (peek_last-View (d ∷ done) b'\'' v refl (omega arith))

build_char-nil :
    {s : Source} (l : Lexer) {done : Bytes}
    → View s l.reader done (b'\'' ∷ []) []
    → Lexes s (build_char l) TokenType.error_kw (codes "unclosed or empty char found") []
unfolding build_char char_end build_error
build_char-nil l {done} v =
    let still = ap (λ (t : ℕ × TextReader). t.1) (advance-nil v) in
    let (cut, v1) = slice-View v in
    rw (skip, still, quote_no_escape done v, cut, match-nil b'\'' v1)
      (build_token_with-Lexes (with_reader l (sync l.reader)) TokenType.error_kw _ _ v1)

-- Behind the opening quote `build_char` reads what `character` says: one byte or one escape
-- sequence and a closing quote, and else an error. It needs room for one byte in the escape buffer.
pub build_char-character :
    {s : Source} (l : Lexer) {done : Bytes} (rest : Bytes)
    → View s l.reader done (b'\'' ∷ []) rest
    → HasRoom l.escape_buffer 1
    → let k = character rest in Lexes s (build_char l) k.0 k.1 k.2
build_char-character l [] v room = build_char-nil l v
build_char-character l (c ∷ []) v room = build_char-plain l c [] v refl
build_char-character l (c ∷ e ∷ rest) v room = elim (Bool-cases (c == b'\\')) [
  | inl slash ↦ elim (Option-cases (escaped_char e)) [
    | inl other ↦ rw (slash, other) (build_char-plain l c (e ∷ rest) v (rw (other, slash)))
    | inr (x, h) ↦
        rw (slash, h) (build_char-escaped l e x rest (rw ((==_iff c b'\\').0 slash) at v) room h)
  ]
  | inr plain ↦ rw plain (build_char-plain l c (e ∷ rest) v (rw plain))
]
