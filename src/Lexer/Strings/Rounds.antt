-- ===== src/Lexer/Strings/Rounds.antt =====
-- One round of the loop of `build_string` in src/lexer.cpp.
use pars_c.Common.{
  ◌≤◌, ◌⊎◌, suc, ℕ, ◌+◌, ◌-◌, ◌<◌, true, false, some, [], ◌∷◌, ◌++◌, append_assoc, append-nil, ◌≡◌,
  inl, inr, sym, ap, ◌∙◌, arith, Bytes, length, length-append, take-append_length, ◌==◌,
}
use pars_c.TextReader.{Source, peek_last, skip, sync, substr, u32, is_escape_sequence}
use pars_c.TextReader.View.{View, advance-View, slice-View, sync-View}
use pars_c.TextReader.Look.{peek_last-View}
use pars_c.Arena.{get_slice, write}
use pars_c.Arena.Slices.{
  HasRoom, occupied-write, get_slice-write, get_slice-write-write, HasRoom-mono, HasRoom-write,
}
use pars_c.Outcome.{ok}
use pars_c.Lexer.State.{Lexer, with_reader}
use pars_c.Lexer.Literals.{
  escaped_char, with_buffer, no_start, start_escape, write_escaped, string_round,
}
use pars_c.Lexer.Strings.Escapes.{starts_escape, is_escape_sequence-View}

-- The loop of `build_string` has read a quote and the bytes that stand for `text`; `rest` is left.
abbrev pub Collected : Lexer → ℕ → Bytes → Bytes → Bytes → Type 0
Collected l start lexeme text rest =
    ((start ≡ no_start)
      × (lexeme ≡ b'"' ∷ text)
      × HasRoom l.escape_buffer (suc (length text) + length rest))
    ⊎ ((start == no_start ≡ false)
        × (start ≤ l.escape_buffer.occupied)
        × (get_slice start l.escape_buffer ≡ b'"' ∷ text)
        × HasRoom l.escape_buffer (length rest))

pub record Reading (s : Source) (l : Lexer) (start : ℕ) (text rest : Bytes) : Type 0 where
  pub done : Bytes
  pub lexeme : Bytes
  pub view : View s l.reader done lexeme rest
  pub quoted : 0 < length (done ++ lexeme)
  pub collected : Collected l start lexeme text rest

pub quoted-concat : (done lexeme : Bytes) (c : ℕ) → 0 < length (done ++ (lexeme ++ c ∷ []))
quoted-concat done lexeme c =
    omega (arith, length-append {0} done (lexeme ++ c ∷ []), length-append {0} lexeme (c ∷ []))

pub quoted_whole : (done lexeme : Bytes) (c : ℕ) → 0 < length ((done ++ (lexeme ++ c ∷ [])) ++ [])
quoted_whole done lexeme c = rw append-nil (quoted-concat done lexeme c)

pub substr-two_less :
    (xs : Bytes) (a b : ℕ)
    → substr ((xs ++ a ∷ []) ++ b ∷ []) 0 (length ((xs ++ a ∷ []) ++ b ∷ []) - 2) ≡ xs
substr-two_less xs a b =
    let n : length ((xs ++ a ∷ []) ++ b ∷ []) - 2 ≡ length xs =
      omega (arith, length-append {0} (xs ++ a ∷ []) (b ∷ []), length-append {0} xs (a ∷ [])) in
    rw (n, append_assoc xs (a ∷ []) (b ∷ [])) (take-append_length xs (a ∷ b ∷ []))

-- A round on a byte that begins no escape sequence.
pub round_plain :
    {s : Source} {l : Lexer} {start : ℕ} {text : Bytes} (c : ℕ) {rest : Bytes}
    → starts_escape c rest ≡ false
    → Reading s l start text (c ∷ rest)
    → (l' : Lexer) × (start' : ℕ) × (string_round c (with_reader l (skip l.reader)) start
        ≡ ok (l', start'))
      × Reading s l' start' (text ++ c ∷ []) rest
unfolding string_round
round_plain {s} {l} {start} {text} c {rest} h g =
    let v = (advance-View g.view).1 in
    let none_found : is_escape_sequence (skip l.reader) ≡ (false, skip l.reader) = rw h at (
      is_escape_sequence-View (g.done ++ g.lexeme) c rest v
        (sym (append_assoc g.done g.lexeme (c ∷ []))) g.quoted) in
    elim g.collected [
      | inl (e, q, room) ↦ (
        with_reader l (skip l.reader),
        start,
        rw none_found (ground arith),
        record {
          done = g.done;
          lexeme = g.lexeme ++ c ∷ [];
          view = v;
          quoted = quoted-concat g.done g.lexeme c;
          collected = inl (
            e,
            rw q,
            HasRoom-mono l.escape_buffer _ room (omega (arith, length-append {0} text (c ∷ []))),
          );
        },
      )
      | inr (ne, le, sl, room) ↦
          let one = HasRoom-mono l.escape_buffer 1 room (omega arith) in
          (
            with_buffer (with_reader l (skip l.reader)) (write (c ∷ []) l.escape_buffer),
            start,
            rw none_found (ground arith),
            record {
              done = g.done;
              lexeme = g.lexeme ++ c ∷ [];
              view = v;
              quoted = quoted-concat g.done g.lexeme c;
              collected = inr (
                ne,
                omega (arith, occupied-write l.escape_buffer (c ∷ []) one),
                get_slice-write l.escape_buffer (c ∷ []) start le one ∙ rw sl,
                HasRoom-write l.escape_buffer (c ∷ []) (length rest) room (omega arith),
              );
            },
          )
    ]

start_escape-later :
    (l : Lexer) (start : ℕ) → (start == no_start) ≡ false → start_escape l start ≡ (l, start)
unfolding start_escape
start_escape-later l start h = rw h

-- At the first escape sequence the lexeme moves to the buffer.
pub start_escape-first :
    {s : Source} {done rest : Bytes} (l : Lexer) (lexeme : Bytes) (a b : ℕ)
    → View s l.reader done ((lexeme ++ a ∷ []) ++ b ∷ []) rest
    → start_escape l no_start ≡ (
      with_buffer (with_reader l (sync l.reader)) (write lexeme l.escape_buffer),
      u32 l.escape_buffer.occupied,
    )
unfolding start_escape
start_escape-first l lexeme a b v = rw ((slice-View v).0, substr-two_less lexeme a b)

pub round_escape :
    {s : Source} {l : Lexer} {start : ℕ} {text : Bytes} (e x : ℕ) {rest : Bytes}
    → escaped_char e ≡ some x
    → Reading s l start text (b'\\' ∷ e ∷ rest)
    → (l' : Lexer) × (start' : ℕ) × (string_round b'\\' (with_reader l (skip l.reader)) start
        ≡ ok (l', start'))
      × Reading s l' start' (text ++ x ∷ []) rest
unfolding string_round write_escaped
round_escape {s} {l} {start} {text} e x {rest} h g =
    let r2 = skip (skip l.reader) in
    let v1 = (advance-View g.view).1 in
    let v2 = (advance-View v1).1 in
    let found : is_escape_sequence (skip l.reader) ≡ (true, r2) =
      is_escape_sequence-View (g.done ++ g.lexeme) b'\\' (e ∷ rest) v1
        (sym (append_assoc g.done g.lexeme (b'\\' ∷ []))) g.quoted
      ∙ rw (h, starts_escape) in
    let letter : peek_last r2 ≡ e =
      peek_last-View (g.done ++ (g.lexeme ++ b'\\' ∷ [])) e v2
        (sym (append_assoc g.done (g.lexeme ++ b'\\' ∷ []) (e ∷ [])))
        (quoted-concat g.done g.lexeme b'\\') in
    let step : string_round b'\\' (with_reader l (skip l.reader)) start
        ≡ write_escaped (some x) (start_escape (with_reader l r2) start) =
      rw (found, letter, h) in
    elim g.collected [
      | inl (first, q, room) ↦
          let a = l.escape_buffer in
          let fits = HasRoom-mono a (length g.lexeme) room (omega (arith, ap length q)) in
          let room' =
            HasRoom-write a g.lexeme (1 + length rest) room (omega (arith, ap length q)) in
          let one = HasRoom-mono (write g.lexeme a) 1 room' (omega arith) in
          let o = occupied-write a g.lexeme fits in
          let small : u32 a.occupied ≡ a.occupied = omega (arith, room.within, room.addressable) in
          let buffer = write (x ∷ []) (write g.lexeme a) in
          (
            with_buffer (with_reader l (sync r2)) buffer,
            a.occupied,
            step
                ∙ rw (
                  first,
                  start_escape-first (with_reader l r2) g.lexeme b'\\' e v2,
                  small,
                  write_escaped,
                ),
            record {
              done = g.done ++ ((g.lexeme ++ b'\\' ∷ []) ++ e ∷ []);
              lexeme = [];
              view = sync-View v2;
              quoted = quoted_whole g.done (g.lexeme ++ b'\\' ∷ []) e;
              collected = inr (
                ground (arith, room.within, room.addressable),
                omega (arith, o, occupied-write (write g.lexeme a) (x ∷ []) one),
                get_slice-write-write a g.lexeme (x ∷ []) fits one ∙ rw q,
                HasRoom-write (write g.lexeme a) (x ∷ []) (length rest) room' (omega arith),
              );
            },
          )
      | inr (ne, le, sl, room) ↦
          let a = l.escape_buffer in
          let one = HasRoom-mono a 1 room (omega arith) in
          (
            with_buffer (with_reader l r2) (write (x ∷ []) a),
            start,
            step ∙ rw (start_escape-later (with_reader l r2) start ne, write_escaped),
            record {
              done = g.done;
              lexeme = (g.lexeme ++ b'\\' ∷ []) ++ e ∷ [];
              view = v2;
              quoted = quoted-concat g.done (g.lexeme ++ b'\\' ∷ []) e;
              collected = inr (
                ne,
                omega (arith, occupied-write a (x ∷ []) one),
                get_slice-write a (x ∷ []) start le one ∙ rw sl,
                HasRoom-write a (x ∷ []) (length rest) room (omega arith),
              );
            },
          )
    ]
