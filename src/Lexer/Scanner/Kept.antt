-- ===== src/Lexer/Scanner/Kept.antt =====
-- The window of tokens and the file id, under the functions of src/lexer.cpp below `advance`.
use pars_c.Arena.{write}
use pars_c.Lexer.Scanner.{
  skip_insignificant, skip_comments, advance, peek, with_reader, advance_one, build_dot,
}
use pars_c.Lexer.Scanner.Switch.{build_for-Ensures}
use pars_c.Lexer.Literals.{
  escaped_char, with_buffer, no_start, build_string, string_loop, string_round, write_escaped,
  start_escape, string_lexeme, string_end, build_char, escaped_lexeme, char_end, build_identifier,
  build_digit,
}
use pars_c.Common.{
  sym, ◌&&◌, ◌==◌, drop, inr, inl, not, Bool-cases, none, some, Option, ℕ, zero, suc, ◌≡◌, arith,
  ◌∙◌, refl, Bool, true, false, Bytes, [], ◌∷◌, if◌then◌else◌,
}
use pars_c.Token.{TokenType, Token}
use pars_c.TextReader
use mathlib.Core.Path.{subst}
use pars_c.TextReader.{slice, peek_last, skip, is_escape_sequence, at_end, TextReader}
use pars_c.Outcome.{◌>>=◌, Outcome, ok, Always, >>=-Always, if-Always}
use pars_c.Lexer.State.{
  Lexer, build_token_with, build_token, build_token2, build_token3, build_error,
}

abbrev pub window : Lexer → Option Token × Option Token × Option Token × ℕ
window l = (l.last_token, l.current_token, l.next_token, l.file_id)

-- What a call returns has the same window, in front or behind a token or a text.
abbrev pub Keeps : Lexer → Token × Lexer → Type 0
Keeps l x = window x.1 ≡ window l

build_token_with-Kept :
    (type : TokenType) (lexeme : Bytes) (l : Lexer) → Keeps l (build_token_with type lexeme l)
unfolding build_token_with
build_token_with-Kept type [] l = refl
build_token_with-Kept type (c ∷ cs) l = refl

build_token-Kept : (type : TokenType) (l : Lexer) → Keeps l (build_token type l)
unfolding build_token build_token_with
build_token-Kept type l = refl

build_token2-Kept :
    (match : ℕ) (tk1 tk2 : TokenType) (l : Lexer) → Keeps l (build_token2 match tk1 tk2 l)
unfolding build_token2 build_token build_token_with
build_token2-Kept match tk1 tk2 l = refl

build_token3-Kept :
    (match1 : ℕ) (tk1 : TokenType) (match2 : ℕ) (tk2 tk3 : TokenType) (l : Lexer)
    → Keeps l (build_token3 match1 tk1 match2 tk2 tk3 l)
unfolding build_token3 build_token build_token_with
build_token3-Kept match1 tk1 match2 tk2 tk3 l = ground arith

build_digit-Kept : (l : Lexer) → Keeps l (build_digit l)
unfolding build_digit build_error build_token build_token_with
build_digit-Kept l = ground arith

build_identifier-Kept : (l : Lexer) → Keeps l (build_identifier l)
unfolding build_identifier build_token build_token_with
build_identifier-Kept l = refl

build_dot-Kept : (l : Lexer) → Keeps l (build_dot l)
unfolding build_dot build_token build_token_with
build_dot-Kept l = ground arith

char_end-Kept : (lexeme : Bytes) (l : Lexer) → Keeps l (char_end (lexeme, l))
unfolding char_end build_error build_token_with
char_end-Kept [] l = ground arith
char_end-Kept (c ∷ lexeme) l = ground arith

-- Inside the string loop, and for an escaped character.
abbrev KeepsFirst : Lexer → Lexer × ℕ → Type 0
KeepsFirst l x = window x.0 ≡ window l

abbrev KeepsBehind : Lexer → Bytes × Lexer → Type 0
KeepsBehind l x = window x.1 ≡ window l

escaped_lexeme-Kept : (e : Option ℕ) (l : Lexer) → Always (KeepsBehind l) (escaped_lexeme e l)
unfolding escaped_lexeme
escaped_lexeme-Kept none l = tt
escaped_lexeme-Kept (some e) l = refl

build_char-Kept : (l : Lexer) → Always (Keeps l) (build_char l)
unfolding build_char
build_char-Kept l =
    let (found, r) = is_escape_sequence (skip l.reader) in
    let escaped = escaped_lexeme (escaped_char (peek_last r)) (with_reader l r) in
    let plain : Outcome (Bytes × Lexer) = ok (drop 1 (slice r).0, with_reader l (slice r).1) in
    >>=-Always (KeepsBehind l) (Keeps l) (if found then escaped else plain)
      (λ done. ok (char_end done))
      (if-Always (KeepsBehind l) found escaped plain
        (escaped_lexeme-Kept (escaped_char (peek_last r)) (with_reader l r)) refl)
      (λ x h. char_end-Kept x.0 x.1 ∙ h)

string_lexeme-Kept : (l : Lexer) (start : ℕ) → window (string_lexeme l start).2 ≡ window l
unfolding string_lexeme
string_lexeme-Kept l start = ground arith

string_end-Kept : (l : Lexer) (start : ℕ) → Keeps l (string_end (l, start))
unfolding string_end build_error build_token_with
string_end-Kept l start =
    let (found, r) = TextReader.match b'"' l.reader in
    let (lexeme, end_size, l') = string_lexeme (with_reader l r) start in
    let built : window (build_token_with TokenType.string_literal lexeme l').1 ≡ window l =
      build_token_with-Kept TokenType.string_literal lexeme l'
      ∙ string_lexeme-Kept (with_reader l r) start in
    elim (Bool-cases found) [ inl e ↦ rw e built | inr e ↦ rw e refl ]

start_escape-Kept : (l : Lexer) (start : ℕ) → KeepsFirst l (start_escape l start)
unfolding start_escape
start_escape-Kept l start = ground arith

write_escaped-Kept :
    (l : Lexer) (e : Option ℕ) (x : Lexer × ℕ)
    → KeepsFirst l x
    → Always (KeepsFirst l) (write_escaped e x)
unfolding write_escaped
write_escaped-Kept l none x h = tt
write_escaped-Kept l (some e) x h = h

string_round-Kept : (c : ℕ) (l : Lexer) (start : ℕ) → Always (KeepsFirst l) (string_round c l start)
unfolding string_round
string_round-Kept c l start =
    let (found, r) = is_escape_sequence l.reader in
    let started = start_escape (with_reader l r) start in
    let wrote = with_buffer l (write (c ∷ []) l.escape_buffer) in
    let plain : Outcome (Lexer × ℕ) =
      if not (start == no_start) then ok (wrote, start) else ok (l, start) in
    if-Always (KeepsFirst l) found (write_escaped (escaped_char (peek_last r)) started) plain
      (write_escaped-Kept l (escaped_char (peek_last r)) started
        (start_escape-Kept (with_reader l r) start))
      (if-Always (KeepsFirst l) (not (start == no_start)) (ok (wrote, start)) (ok (l, start)) refl
        refl)

abbrev loop_test : Lexer → Bool
loop_test l = not (at_end l.reader) && not (peek l.reader == b'"')

string_loop-stops :
    (fuel : ℕ) (l : Lexer) (start : ℕ)
    → loop_test l ≡ false
    → string_loop (suc fuel) l start ≡ ok (l, start)
unfolding string_loop
string_loop-stops fuel l start e = rw (string_loop, e)

string_loop-goes_on :
    (fuel : ℕ) (l : Lexer) (start : ℕ)
    → loop_test l ≡ true
    → string_loop (suc fuel) l start ≡ (
        string_round (advance l.reader).0 (with_reader l (skip l.reader)) start >>= λ (l', start').
        string_loop fuel l' start')
unfolding string_loop
string_loop-goes_on fuel l start e = rw (string_loop, e)

string_loop-Kept :
    (fuel : ℕ) (o l : Lexer) (start : ℕ)
    → window l ≡ window o
    → Always (KeepsFirst o) (string_loop fuel l start)
unfolding string_loop
string_loop-Kept zero o l start k = k
string_loop-Kept (suc fuel) o l start k = elim (Bool-cases (loop_test l)) [
  | inr e ↦ subst (Always (KeepsFirst o)) (sym (string_loop-stops fuel l start e)) k
  | inl e ↦ subst (Always (KeepsFirst o)) (sym (string_loop-goes_on fuel l start e)) (
      >>=-Always (KeepsFirst l) (KeepsFirst o) _ _
        (string_round-Kept _ (with_reader l (skip l.reader)) start)
        (λ x h. string_loop-Kept fuel o x.0 x.1 (h ∙ k)))
]

build_string-Kept : (l : Lexer) → Always (Keeps l) (build_string l)
unfolding build_string
build_string-Kept l =
    >>=-Always (KeepsFirst l) (Keeps l) _ _ (string_loop-Kept _ l l no_start refl)
      (λ x h. string_end-Kept x.0 x.1 ∙ h)

-- When `advance_one` returns, it has left the three tokens of the window and the file as they were.
pub advance_one-Kept : (l : Lexer) → Always (Keeps l) (advance_one l)
unfolding advance_one
advance_one-Kept l =
    let (c, r) = advance (skip_comments (skip_insignificant false l.reader)) in
    let l' = with_reader l r in
    (build_for-Ensures {P = Keeps l} l' (λ type. build_token-Kept type l')
      (λ match tk1 tk2. build_token2-Kept match tk1 tk2 l')
      (λ match1 tk1 match2 tk2 tk3. build_token3-Kept match1 tk1 match2 tk2 tk3 l')
      (build_dot-Kept l') (build_string-Kept l') (build_char-Kept l') (build_digit-Kept l')
      (build_identifier-Kept l') c).holds
