-- ===== src/Lexer/Progress/Tokens.antt =====
-- How far the functions of src/lexer.cpp that make a token move through the text, `advance_one`
-- the last of them.
use pars_c.Common.{
  ℕ, ◌+◌, ◌<◌, ◌≤◌, ◌≡◌, ◌∙◌, ◌==◌, ◌&&◌, [], ◌∷◌, arith, Bool, Bool-cases, Bytes, drop, false,
  if◌then◌else◌, inl, inr, none, not, Option, some, suc, true, zero,
}
use pars_c.Token.{Token, TokenType}
use pars_c.Arena.{write}
use pars_c.Outcome.{Always-map, Always, if-Always, ok, Outcome, >>=-Always}
use pars_c.TextReader
use pars_c.TextReader.{
  TextReader, advance, at, at_end, consume, is_escape_sequence, isdigit, peek, peek_last, peek_next,
  remaining, size, skip, skip_insignificant, slice,
}
use pars_c.Lexer.State.{
  Lexer, build_error, build_token, build_token2, build_token3, build_token_with, with_reader,
}
use pars_c.Lexer.Keywords.{codes}
use pars_c.Lexer.Literals.{
  build_char, build_digit, build_identifier, build_string, char_end, escaped_char, escaped_lexeme,
  no_start, start_escape, string_end, string_lexeme, string_loop, string_round, with_buffer,
  write_escaped,
}
use pars_c.Lexer.Scanner.{advance_one, build_dot, build_for, skip_comments}
use pars_c.Lexer.Scanner.Switch.{build_for-Ensures}
use pars_c.Lexer.Progress.{
  Behind, Behind-refl, Behind-trans, consume-Behind, consume-shorter, get_identifier-Behind,
  is_escape_sequence-Behind, match-Behind, scan_digits-Behind, skip-Behind, skip_comments-Behind,
  skip_insignificant-Behind, slice-Behind,
}

record Moves (l : Lexer) (x : Token × Lexer) : Type 0 where
  moved : Behind l.reader x.1.reader

-- A call at a reader that has moved on.
call_behind :
    (l : Lexer) {l' : Lexer} {x : Token × Lexer}
    → Behind l.reader l'.reader
    → Moves l' x
    → Moves l x
call_behind l h k = record { moved = Behind-trans h k.moved }

build_token_with-Moves :
    (type : TokenType) (lexeme : Bytes) (l : Lexer) → Moves l (build_token_with type lexeme l)
unfolding build_token_with
build_token_with-Moves type [] l = record { moved = slice-Behind l.reader }
build_token_with-Moves type (c ∷ cs) l = record { moved = Behind-refl l.reader }

build_token-Moves : (type : TokenType) (l : Lexer) → Moves l (build_token type l)
unfolding build_token
build_token-Moves type l = build_token_with-Moves type [] l

build_error-Moves : (message : Bytes) (l : Lexer) → Moves l (build_error message l)
unfolding build_error
build_error-Moves message l = build_token_with-Moves _ message l

build_token2-Moves :
    (match : ℕ) (tk1 tk2 : TokenType) (l : Lexer) → Moves l (build_token2 match tk1 tk2 l)
unfolding build_token2
build_token2-Moves match tk1 tk2 l =
    call_behind l (match-Behind match l.reader) (build_token-Moves _ _)

-- A token behind a reader that has moved on.
token_behind :
    (l : Lexer) (type : TokenType) {r : TextReader}
    → Behind l.reader r
    → Moves l (build_token type (with_reader l r))
token_behind l type {r} h = call_behind l h (build_token-Moves type (with_reader l r))

Moves-if :
    (l : Lexer) (b : Bool) (x y : Token × Lexer)
    → Moves l x
    → Moves l y
    → Moves l (if b then x else y)
Moves-if l true x y h k = h
Moves-if l false x y h k = k

build_token3-Moves :
    (match1 : ℕ) (tk1 : TokenType) (match2 : ℕ) (tk2 tk3 : TokenType) (l : Lexer)
    → Moves l (build_token3 match1 tk1 match2 tk2 tk3 l)
unfolding build_token3
build_token3-Moves match1 tk1 match2 tk2 tk3 l =
    let first = match-Behind match1 l.reader in
    let second = Behind-trans first (match-Behind match2 _) in
    Moves-if l _ _ _ (token_behind l tk1 first)
      (Moves-if l _ _ _ (token_behind l tk2 second) (token_behind l tk3 second))

build_dot-Moves : (l : Lexer) → Moves l (build_dot l)
unfolding build_dot
build_dot-Moves l =
    let dot = match-Behind b'.' l.reader in
    let equal = Behind-trans dot (match-Behind b'=' _) in
    let dots = Behind-trans equal (match-Behind b'.' _) in
    let (found, r) = TextReader.match b'.' l.reader in
    let (closed, r') = TextReader.match b'=' r in
    Moves-if l found _ _
      (Moves-if l closed _ _ (token_behind l TokenType.dot_dot_equal equal) (
        Moves-if l (TextReader.match b'.' r').0 _ _ (token_behind l TokenType.ellipse dots)
          (token_behind l TokenType.dot_dot dots)))
      (token_behind l TokenType.dot dot)

build_digit-Moves : (l : Lexer) → Moves l (build_digit l)
unfolding build_digit
build_digit-Moves l =
    let digits = scan_digits-Behind l.reader in
    let point = Behind-trans digits (skip-Behind _) in
    Moves-if l _ _ _
      (Moves-if l _ _ _ (call_behind l point (build_error-Moves _ _))
        (token_behind l _ (Behind-trans point (scan_digits-Behind _))))
      (token_behind l _ digits)

build_identifier-Moves : (l : Lexer) → Moves l (build_identifier l)
unfolding build_identifier
build_identifier-Moves l = record {
  moved = (token_behind l TokenType.identifier (get_identifier-Behind l.reader)).moved;
}

char_end-Moves : (lexeme : Bytes) (l : Lexer) → Moves l (char_end (lexeme, l))
unfolding char_end
char_end-Moves lexeme l =
    let quote = match-Behind b'\'' l.reader in
    Moves-if l _ _ _ (call_behind l quote (build_error-Moves _ _))
      (call_behind l quote (build_token_with-Moves _ lexeme _))

abbrev MovesBehind : TextReader → Bytes × Lexer → Type 0
MovesBehind r x = Behind r x.1.reader

abbrev MovesFirst : TextReader → Lexer × ℕ → Type 0
MovesFirst r x = Behind r x.0.reader

escaped_lexeme-Moves :
    (r : TextReader) (e : Option ℕ) (l : Lexer)
    → Behind r l.reader
    → Always (MovesBehind r) (escaped_lexeme e l)
unfolding escaped_lexeme
escaped_lexeme-Moves r none l h = tt
escaped_lexeme-Moves r (some e) l h = h

build_char-Moves : (l : Lexer) → Always (Moves l) (build_char l)
unfolding build_char
build_char-Moves l =
    let (found, r) = is_escape_sequence (skip l.reader) in
    let moved : Behind l.reader r =
      Behind-trans (skip-Behind l.reader) (is_escape_sequence-Behind _) in
    let escaped = escaped_lexeme (escaped_char (peek_last r)) (with_reader l r) in
    let plain : Outcome (Bytes × Lexer) = ok (drop 1 (slice r).0, with_reader l (slice r).1) in
    >>=-Always (MovesBehind l.reader) (Moves l) (if found then escaped else plain)
      (λ done. ok (char_end done))
      (if-Always (MovesBehind l.reader) found escaped plain
        (escaped_lexeme-Moves l.reader (escaped_char (peek_last r)) (with_reader l r) moved)
        (Behind-trans moved (slice-Behind r)))
      (λ x h. call_behind l h (char_end-Moves x.0 x.1))

string_lexeme-Moves : (l : Lexer) (start : ℕ) → Behind l.reader (string_lexeme l start).2.reader
unfolding string_lexeme
string_lexeme-Moves l start = elim (Bool-cases (not (start == no_start))) [
  | inl e ↦ rw e (Behind-refl l.reader)
  | inr e ↦ rw e (slice-Behind l.reader)
]

string_end-Moves : (l : Lexer) (start : ℕ) → Moves l (string_end (l, start))
unfolding string_end
string_end-Moves l start =
    let (found, r) = TextReader.match b'"' l.reader in
    let quote = match-Behind b'"' l.reader in
    let (lexeme, end_size, l') = string_lexeme (with_reader l r) start in
    Moves-if l (not found) (build_error (codes "unclosed string found") (with_reader l r)) _
      (call_behind l quote (build_error-Moves _ (with_reader l r)))
      (record {
        moved = Behind-trans quote (
            Behind-trans (string_lexeme-Moves (with_reader l r) start)
              (build_token_with-Moves TokenType.string_literal lexeme l').moved);
      })

start_escape-Moves : (l : Lexer) (start : ℕ) → MovesFirst l.reader (start_escape l start)
unfolding start_escape
start_escape-Moves l start = elim (Bool-cases (start == no_start)) [
  | inl e ↦ rw e (slice-Behind l.reader)
  | inr e ↦ rw e (Behind-refl l.reader)
]

write_escaped-Moves :
    (r : TextReader) (e : Option ℕ) (x : Lexer × ℕ)
    → MovesFirst r x
    → Always (MovesFirst r) (write_escaped e x)
unfolding write_escaped
write_escaped-Moves r none x h = tt
write_escaped-Moves r (some e) x h = h

string_round-Moves :
    (c : ℕ) (l : Lexer) (start : ℕ) → Always (MovesFirst l.reader) (string_round c l start)
unfolding string_round
string_round-Moves c l start =
    let (found, r) = is_escape_sequence l.reader in
    let started = start_escape (with_reader l r) start in
    let wrote = with_buffer l (write (c ∷ []) l.escape_buffer) in
    let plain : Outcome (Lexer × ℕ) =
      if not (start == no_start) then ok (wrote, start) else ok (l, start) in
    if-Always (MovesFirst l.reader) found (write_escaped (escaped_char (peek_last r)) started) plain
      (write_escaped-Moves l.reader (escaped_char (peek_last r)) started (
        Behind-trans (is_escape_sequence-Behind l.reader)
          (start_escape-Moves (with_reader l r) start)))
      (if-Always (MovesFirst l.reader) (not (start == no_start)) (ok (wrote, start)) (ok (l, start))
        (Behind-refl l.reader) (Behind-refl l.reader))

abbrev loop_test : Lexer → Bool
loop_test l = not (at_end l.reader) && not (peek l.reader == b'"')

string_loop-Moves :
    (fuel : ℕ) (r : TextReader) (l : Lexer) (start : ℕ)
    → Behind r l.reader
    → Always (MovesFirst r) (string_loop fuel l start)
unfolding string_loop
string_loop-Moves zero r l start h = h
string_loop-Moves (suc fuel) r l start h = elim (Bool-cases (loop_test l)) [
  | inr e ↦ rw (e, string_loop) h
  | inl e ↦
      rw (e, string_loop)
        (>>=-Always (MovesFirst (skip l.reader)) (MovesFirst r) _ _
          (string_round-Moves _ (with_reader l (skip l.reader)) start)
          (λ x k.
            string_loop-Moves fuel r x.0 x.1
              (Behind-trans h (Behind-trans (skip-Behind l.reader) k))))
]

build_string-Moves : (l : Lexer) → Always (Moves l) (build_string l)
unfolding build_string
build_string-Moves l =
    >>=-Always (MovesFirst l.reader) (Moves l) _ _
      (string_loop-Moves _ l.reader l no_start (Behind-refl l.reader))
      (λ x h. call_behind l h (string_end-Moves x.0 x.1))

build_for-Moves : (c : ℕ) (l : Lexer) → Always (Moves l) (build_for c l)
build_for-Moves c l =
    (build_for-Ensures {P = Moves l} l (λ type. build_token-Moves type l)
      (λ match tk1 tk2. build_token2-Moves match tk1 tk2 l)
      (λ match1 tk1 match2 tk2 tk3. build_token3-Moves match1 tk1 match2 tk2 tk3 l)
      (build_dot-Moves l) (build_string-Moves l) (build_char-Moves l) (build_digit-Moves l)
      (build_identifier-Moves l) c).holds

-- What a token is counted for: the last one, which can be read again and again, for nothing.
abbrev pub cost : TokenType → ℕ
cost TokenType.eof = 0
cost type = 1

-- A read goes on in the same text, and what it takes of it is as much as its token is counted for.
pub record Reads (l : Lexer) (x : Token × Lexer) : Type 0 where
  pub size_is : size x.1.reader.source ≡ size l.reader.source
  pub less : remaining x.1.reader + cost x.0.type ≤ remaining l.reader

Reads-last :
    (l : Lexer) (r : TextReader)
    → size l.reader.source < 4294967296
    → Behind l.reader r
    → Always (Reads l) (build_for 0 (with_reader l r))
unfolding build_for build_token build_token_with slice
Reads-last l r small h = record {
  size_is = h.size_is;
  less = let k = h.shorter small in omega arith;
}

cost-le : (type : TokenType) → cost type ≤ 1
cost-le TokenType.eof = omega arith
cost-le type = omega arith

reads_more :
    (l : Lexer) (x : Token × Lexer) (r : TextReader) (c : ℕ)
    → size l.reader.source < 4294967296
    → Behind l.reader r
    → at_end r ≡ false
    → Moves (with_reader l (consume r c)) x
    → Reads l x
reads_more l x r c small h e m =
    let same = h.size_is in
    let fewer = h.shorter small in
    let read = consume-shorter r c (omega arith) e in
    let same' = (consume-Behind r c e).size_is in
    let rest = m.moved.shorter (omega arith) in
    record {
      size_is = m.moved.size_is ∙ same' ∙ same;
      less = let bound = cost-le x.0.type in omega arith;
    }

switch-Reads :
    (l : Lexer) (r : TextReader)
    → size l.reader.source < 4294967296
    → Behind l.reader r
    → Always (Reads l) (build_for (advance r).0 (with_reader l (advance r).1))
unfolding advance
switch-Reads l r small h = elim (Bool-cases (at_end r)) [
  | inl e ↦ rw e (Reads-last l r small h)
  | inr e ↦ rw e (
      let c = at r.source r.offset in
      Always-map (Moves (with_reader l (consume r c))) (Reads l) _ (build_for-Moves c _)
        (λ x m. reads_more l x r c small h e m))
]

-- A token takes at least a byte of the text, unless it is the last one.
pub advance_one-Reads :
    (l : Lexer) → size l.reader.source < 4294967296 → Always (Reads l) (advance_one l)
unfolding advance_one
advance_one-Reads l small =
    switch-Reads l (skip_comments (skip_insignificant false l.reader)) small
      (Behind-trans (skip_insignificant-Behind false l.reader) (skip_comments-Behind _))
