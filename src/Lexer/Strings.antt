-- ===== src/Lexer/Strings.antt =====
-- String literals with a closing quote and without one: `build_string` of src/lexer.cpp.
pub mod Escapes
pub mod Rounds
pub mod Ends
use pars_c.Lexer.Keywords.{codes}
use pars_c.Common.{
  refl, inl, ℕ, zero, suc, ◌+◌, ◌≤◌, false, some, [], ◌∷◌, ◌++◌, append_assoc, append-nil, ◌≡◌, ◌∙◌,
  arith, Bytes, length, length-append, ◌==◌,
}
use pars_c.TextReader.{Source, skip, remaining}
use pars_c.TextReader.View.{at_end-nil, View, at_end-cons, peek-cons, advance-View, View-remaining}
use pars_c.Arena.Slices.{HasRoom-mono, HasRoom}
use pars_c.Outcome.{Outcome, ok, ◌>>=◌}
use pars_c.Lexer.State.{Lexer, with_reader, Lexes}
use pars_c.Lexer.Literals.{no_start, escaped_char, string_round, string_loop, build_string}
use pars_c.Lexer.Strings.Escapes.{starts_escape}
use pars_c.Lexer.Strings.Rounds.{Reading, round_plain, round_escape}
use pars_c.Lexer.Strings.Ends.{string_end-closed, string_end-open}
use pars_c.Token.{TokenType}

-- What a string literal stands for: `Decodes body text rest` says that `body`, read behind the
-- opening quote, stands for `text` up to its closing quote, and that `rest` follows.
pub data Decodes : Bytes → Bytes → Bytes → Type 0 where
  close : {c : ℕ} {rest : Bytes} → c ≡ b'"' → Decodes (c ∷ rest) [] rest
  plain :
      {c : ℕ} {body text rest : Bytes}
      → (c == b'"') ≡ false
      → starts_escape c body ≡ false
      → Decodes body text rest
      → Decodes (c ∷ body) (c ∷ text) rest
  escape :
      {c e x : ℕ} {body text rest : Bytes}
      → c ≡ b'\\'
      → escaped_char e ≡ some x
      → Decodes body text rest
      → Decodes (c ∷ e ∷ body) (x ∷ text) rest

-- `body` has no closing quote.
pub data Unclosed : Bytes → Type 0 where
  end : Unclosed []
  plain :
      {c : ℕ} {body : Bytes}
      → (c == b'"') ≡ false
      → starts_escape c body ≡ false
      → Unclosed body
      → Unclosed (c ∷ body)
  escape :
      {c e x : ℕ} {body : Bytes}
      → c ≡ b'\\'
      → escaped_char e ≡ some x
      → Unclosed body
      → Unclosed (c ∷ e ∷ body)

module _ (fuel : ℕ) {s : Source} {l : Lexer} {start : ℕ} {text : Bytes} where
  loop_round :
      {c : ℕ} {rest : Bytes} (g : Reading s l start text (c ∷ rest))
      → (c == b'"') ≡ false
      → string_loop (suc fuel) l start ≡ (
          string_round c (with_reader l (skip l.reader)) start >>= λ (l', start').
          string_loop fuel l' start')
  unfolding string_loop
  loop_round g h =
      rw (at_end-cons g.view, peek-cons g.view, h, string_loop, (advance-View g.view).0)

  loop_close :
      {c : ℕ} {rest : Bytes} (g : Reading s l start text (c ∷ rest))
      → c ≡ b'"'
      → string_loop (suc fuel) l start ≡ ok (l, start)
  unfolding string_loop
  loop_close g h = rw (at_end-cons g.view, peek-cons g.view, h, string_loop)

loop_end :
    (fuel : ℕ) {s : Source} {l : Lexer} {start : ℕ} {text : Bytes}
    → Reading s l start text []
    → string_loop fuel l start ≡ ok (l, start)
unfolding string_loop
loop_end zero g = refl
loop_end (suc fuel) g = rw (at_end-nil g.view, string_loop)

-- With a closing quote in reach, the loop stops in front of it, the text collected.
abbrev Closes : Source → Outcome (Lexer × ℕ) → Bytes → Bytes → Type 0
Closes s loop text rest =
    (l : Lexer) × (start : ℕ) × (loop ≡ ok (l, start)) × Reading s l start text rest

loop-Decodes :
    {body more rest : Bytes}
    → Decodes body more rest
    → (fuel : ℕ) {s : Source} {l : Lexer} {start : ℕ} (text : Bytes) → length body ≤ fuel
    → Reading s l start text body
    → Closes s (string_loop fuel l start) (text ++ more) (b'"' ∷ rest)
loop-Decodes (close h) zero text k g = absurd (omega arith)
loop-Decodes (close h) (suc fuel) {l} {start} text k g =
    (l, start, loop_close fuel g h, rw (append-nil, ← h) g)
loop-Decodes (plain h e d) zero text k g = absurd (omega arith)
loop-Decodes (plain {c} {text = more} h e d) (suc fuel) {l} {start} text k g =
    let (l1, start1, step, g1) = round_plain c e g in
    let (l2, start2, loop, g2) = loop-Decodes d fuel (text ++ c ∷ []) (omega arith) g1 in
    (l2, start2, loop_round fuel g h ∙ rw (step, loop), rw append_assoc at g2)
loop-Decodes (escape b e d) zero text k g = absurd (omega arith)
loop-Decodes (escape {e = e} {x} b h d) (suc fuel) {l} {start} text k g =
    let (l1, start1, step, g1) = round_escape e x h (rw b at g) in
    let (l2, start2, loop, g2) = loop-Decodes d fuel (text ++ x ∷ []) (omega arith) g1 in
    (l2, start2, loop_round fuel g (rw b) ∙ rw (b, step, loop), rw append_assoc at g2)

loop-Unclosed :
    {body : Bytes}
    → Unclosed body
    → (fuel : ℕ) {s : Source} {l : Lexer} {start : ℕ} (text : Bytes) → length body ≤ fuel
    → Reading s l start text body
    → (more : Bytes) × Closes s (string_loop fuel l start) more []
loop-Unclosed end fuel {l} {start} text k g = (text, (l, start, loop_end fuel g, g))
loop-Unclosed (plain h e d) zero text k g = absurd (omega arith)
loop-Unclosed (plain {c} h e d) (suc fuel) {l} {start} text k g =
    let (l1, start1, step, g1) = round_plain c e g in
    let (more, (l2, start2, loop, g2)) = loop-Unclosed d fuel (text ++ c ∷ []) (omega arith) g1 in
    (more, (l2, start2, loop_round fuel g h ∙ rw (step, loop), g2))
loop-Unclosed (escape b e d) zero text k g = absurd (omega arith)
loop-Unclosed (escape {e = e} {x} b h d) (suc fuel) {l} {start} text k g =
    let (l1, start1, step, g1) = round_escape e x h (rw b at g) in
    let (more, (l2, start2, loop, g2)) = loop-Unclosed d fuel (text ++ x ∷ []) (omega arith) g1 in
    (more, (l2, start2, loop_round fuel g (rw b) ∙ rw (b, step, loop), g2))

start_Reading :
    {s : Source} (l : Lexer) {done body : Bytes}
    → View s l.reader done (b'"' ∷ []) body
    → HasRoom l.escape_buffer (1 + length body)
    → Reading s l no_start [] body
start_Reading l {done} {body} v room = record {
  done = done;
  lexeme = b'"' ∷ [];
  view = v;
  quoted = omega (arith, length-append {0} done (b'"' ∷ []));
  collected = inl (refl, refl, HasRoom-mono _ (1 + length body) room (omega arith));
}

-- Behind the opening quote of a literal with a closing quote, `build_string` returns a string
-- token with the text that the literal stands for, its escape sequences replaced, and leaves what
-- follows the literal. It needs room for the literal in the escape buffer.
pub build_string-Decodes :
    {s : Source} (l : Lexer) {done body text rest : Bytes}
    → View s l.reader done (b'"' ∷ []) body
    → HasRoom l.escape_buffer (1 + length body)
    → Decodes body text rest
    → Lexes s (build_string l) TokenType.string_literal text rest
unfolding build_string
build_string-Decodes l v room d =
    let (l', start, loop, g) =
      loop-Decodes d (remaining l.reader) [] (View-remaining v) (start_Reading l v room) in
    rw loop (string_end-closed g)

-- With no closing quote to the end of the text, `build_string` returns a token of the type of the keyword
-- `error`, whose lexeme is the message, and leaves nothing. It needs room for the rest of the text in the escape
-- buffer.
pub build_string-Unclosed :
    {s : Source} (l : Lexer) {done body : Bytes}
    → View s l.reader done (b'"' ∷ []) body
    → HasRoom l.escape_buffer (1 + length body)
    → Unclosed body
    → Lexes s (build_string l) TokenType.error_kw (codes "unclosed string found") []
unfolding build_string
build_string-Unclosed l v room d =
    let (more, (l', start, loop, g)) =
      loop-Unclosed d (remaining l.reader) [] (View-remaining v) (start_Reading l v room) in
    rw loop (string_end-open g)
