-- ===== src/Lexer/Numbers.antt =====
-- Number literals: `build_digit` of src/lexer.cpp against a description on the bytes alone.
use pars_c.TextReader.Look.{peek_next-cons, peek_next-last}
use pars_c.Lexer.Keywords.{codes}
use pars_c.Outcome.{ok}
use pars_c.TextReader.Scan.{advance_while_guarded-View, drop_while, take_while}
use pars_c.TextReader.View.{advance-View, peek-cons, peek-nil, View}
use pars_c.Token.{TokenType}
use pars_c.Lexer.State.{
  build_token_with-Lexes, with_reader, build_token-Lexes, Lexes, build_error, Lexer,
}
use pars_c.Lexer.Literals.{build_digit, scan_digits}
use pars_c.Common.{
  inr, inl, refl, Bool-cases, false, [], not, ◌&&◌, ◌==◌, if◌then◌else◌, ◌++◌, ◌∷◌, ◌≡◌, Bytes, ℕ,
}
use pars_c.TextReader.{skip, TextReader, Source, isdigit}

-- The type, the lexeme and the rest for the digits read so far and what follows them. A dot
-- that another dot does not follow begins the decimals; behind the last byte of the text the
-- byte `behind` is looked at.
abbrev pub number : ℕ → Bytes → Bytes → TokenType × Bytes × Bytes
number behind digits [] = (TokenType.integer_literal, digits, [])
number behind digits (x ∷ []) =
    if x == b'.' && not (behind == b'.')
    then (TokenType.error_kw, codes "expected digit after '.'", [])
    else (TokenType.integer_literal, digits, x ∷ [])
number behind digits (x ∷ e ∷ rest) =
    if x == b'.' && not (e == b'.')
    then (if not (isdigit e)
        then (TokenType.error_kw, codes "expected digit after '.'", e ∷ rest)
        else (
          TokenType.decimal_literal,
          (digits ++ x ∷ []) ++ take_while isdigit (e ∷ rest),
          drop_while isdigit (e ∷ rest),
        ))
    else (TokenType.integer_literal, digits, x ∷ e ∷ rest)

scan_digits-View :
    {s : Source} {r : TextReader} {done lexeme rest : Bytes}
    → View s r done lexeme rest
    → View s (scan_digits r) done (lexeme ++ take_while isdigit rest) (drop_while isdigit rest)
unfolding scan_digits
scan_digits-View v = advance_while_guarded-View isdigit v

isdigit_zero : isdigit 0 ≡ false
unfolding isdigit
isdigit_zero = refl

build_digit-scanned :
    {s : Source} (l : Lexer) (r : TextReader) {done digits : Bytes} (rest : Bytes)
    → scan_digits l.reader ≡ r
    → View s r done digits rest
    → let n = number (s.beyond 0) digits rest in Lexes s (ok (build_digit l)) n.0 n.1 n.2
unfolding build_digit build_error
build_digit-scanned l r [] e v =
    rw (e, peek-nil v) (build_token-Lexes (with_reader l r) TokenType.integer_literal v)
build_digit-scanned {s} l r (x ∷ []) e v =
    elim (Bool-cases (x == b'.' && not (s.beyond 0 == b'.'))) [
      | inl point ↦
          rw (e, peek-cons v, peek_next-last v, point, peek-nil (advance-View v).1, isdigit_zero)
            (build_token_with-Lexes (with_reader l (skip r)) TokenType.error_kw _ _
              (advance-View v).1)
      | inr whole ↦
          rw (e, peek-cons v, peek_next-last v, whole)
            (build_token-Lexes (with_reader l r) TokenType.integer_literal v)
    ]
build_digit-scanned {s} l r (x ∷ d ∷ rest) e v = elim (Bool-cases (x == b'.' && not (d == b'.'))) [
  | inl point ↦ elim (Bool-cases (isdigit d)) [
    | inl digit ↦
        rw (e, peek-cons v, peek_next-cons v, point, peek-cons (advance-View v).1, digit)
          (build_token-Lexes (with_reader l (scan_digits (skip r))) TokenType.decimal_literal
            (rw digit at (scan_digits-View (advance-View v).1)))
    | inr other ↦
        rw (e, peek-cons v, peek_next-cons v, point, peek-cons (advance-View v).1, other)
          (build_token_with-Lexes (with_reader l (skip r)) TokenType.error_kw _ _
            (advance-View v).1)
  ]
  | inr whole ↦
      rw (e, peek-cons v, peek_next-cons v, whole)
        (build_token-Lexes (with_reader l r) TokenType.integer_literal v)
]

-- Behind a first digit `build_digit` reads what `number` says: the longest run of digits, then, if
-- a dot follows that is not followed by another, the decimals, or an error if there are none.
pub build_digit-number :
    {s : Source} (l : Lexer) {done lexeme rest : Bytes}
    → View s l.reader done lexeme rest
    → let n = number (s.beyond 0) (lexeme ++ take_while isdigit rest) (drop_while isdigit rest) in
      Lexes s (ok (build_digit l)) n.0 n.1 n.2
build_digit-number l v = build_digit-scanned l _ _ refl (scan_digits-View v)
