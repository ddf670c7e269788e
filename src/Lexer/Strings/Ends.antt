-- ===== src/Lexer/Strings/Ends.antt =====
-- What `build_string` of src/lexer.cpp does behind its loop.
use pars_c.Lexer.Keywords.{codes}
use pars_c.Outcome.{ok}
use pars_c.Lexer.Literals.{string_lexeme, string_end}
use pars_c.Common.{
  take_all, inr, ℕ, suc, ◌-◌, true, false, [], ◌∷◌, ◌++◌, ◌≡◌, inl, refl, arith, Bytes, length,
  take, take-append_length, length-append,
}
use pars_c.TextReader.{match, skip, Source, sync}
use pars_c.TextReader.View.{sync-View, advance-View, View, slice-View}
use pars_c.TextReader.Look.{match-View, match-nil}
use pars_c.Token.{TokenType, Token}
use pars_c.Lexer.State.{Lexes, build_error, build_token_with, Lexer, with_reader, location_of}
use pars_c.Lexer.Strings.Rounds.{Reading}

less_quotes :
    (text : Bytes) (c : ℕ) → take (suc (length (text ++ c ∷ [])) - 2) (text ++ c ∷ []) ≡ text
less_quotes text c =
    let n : suc (length (text ++ c ∷ [])) - 2 ≡ length text =
      omega (arith, length-append {0} text (c ∷ [])) in
    rw n (take-append_length text (c ∷ []))

abbrev text_token : Bytes → Lexer → Token
text_token text l = record {
  location = location_of l;
  type = TokenType.string_literal;
  lexeme = text;
}

pub string_end-closed :
    {s : Source} {l : Lexer} {start : ℕ} {text rest : Bytes}
    → Reading s l start text (b'"' ∷ rest)
    → Lexes s (ok (string_end (l, start))) TokenType.string_literal text rest
unfolding string_end string_lexeme build_token_with
string_end-closed {l} {start} {text} g =
    let r1 = skip l.reader in
    let v = (advance-View g.view).1 in
    let found : match b'"' l.reader ≡ (true, r1) = match-View b'"' b'"' g.view in
    elim g.collected [
      | inl (first, q, _) ↦
          let v' : View _ r1 g.done (b'"' ∷ (text ++ b'"' ∷ [])) _ = rw q at v in
          record {
            token = text_token text (with_reader l (sync r1));
            lexer = with_reader l (sync r1);
            result = rw (found, first, (slice-View v').0, less_quotes text b'"');
            type_is = refl;
            lexeme_is = refl;
            location_is = refl;
            done = _;
            mark = [];
            view = sync-View v';
          }
      | inr (ne, _, sl, _) ↦ record {
        token = text_token text (with_reader l r1);
        lexer = with_reader l r1;
        result = rw (found, ne, sl, take_all text (suc (length text)) (omega arith));
        type_is = refl;
        lexeme_is = refl;
        location_is = refl;
        done = _;
        mark = _;
        view = v;
      }
    ]

pub string_end-open :
    {s : Source} {l : Lexer} {start : ℕ} {text : Bytes}
    → Reading s l start text []
    → Lexes s (ok (string_end (l, start))) TokenType.error_kw (codes "unclosed string found") []
unfolding string_end build_error build_token_with
string_end-open {l} g =
    let missed : match b'"' l.reader ≡ (false, l.reader) = match-nil b'"' g.view in
    record {
      token = record {
        location = location_of l;
        type = TokenType.error_kw;
        lexeme = codes "unclosed string found";
      };
      lexer = l;
      result = rw missed;
      type_is = refl;
      lexeme_is = refl;
      location_is = refl;
      done = g.done;
      mark = g.lexeme;
      view = g.view;
    }
