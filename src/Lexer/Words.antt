-- ===== src/Lexer/Words.antt =====
-- Identifiers and keywords: `build_identifier` of src/lexer.cpp.
use pars_c.Lexer.Keywords.{find_keyword}
use pars_c.Outcome.{ok-injective, ok}
use pars_c.TextReader.Scan.{get_identifier-View, drop_while, take_while}
use pars_c.TextReader.View.{View}
use pars_c.Lexer.State.{with_reader, build_token-Lexes, Lexes, Lexer}
use pars_c.Token.{Token, TokenType}
use pars_c.Lexer.Literals.{build_identifier}
use pars_c.Common.{refl, ap, Option-cases, inr, inl, none, ◌++◌, Bytes, some, Option}
use pars_c.TextReader.{get_identifier, is_identifier, Source}

-- The type of a word: a keyword's, or an identifier's.
abbrev pub type_of : Option TokenType → TokenType
type_of none = TokenType.identifier
type_of (some type) = type

-- `build_identifier` takes the longest run of identifier bytes, and types it by the table of
-- keywords.
pub build_identifier-Lexes :
    {s : Source} (l : Lexer) {done lexeme rest : Bytes}
    → View s l.reader done lexeme rest
    → let word = lexeme ++ take_while is_identifier rest in
      Lexes s
        (ok (build_identifier l))
        (type_of (find_keyword word))
        word
        (drop_while is_identifier rest)
unfolding build_identifier
build_identifier-Lexes l {done} {lexeme} {rest} v =
    let word = lexeme ++ take_while is_identifier rest in
    let (read, v') = get_identifier-View v in
    let built =
      build_token-Lexes (with_reader l (get_identifier l.reader).1) TokenType.identifier v' in
    elim (Option-cases (find_keyword word)) [
      | inl e ↦
          rw (read, e)
            (record {
              token = record built.token { lexeme = word };
              lexer = built.lexer;
              result =
                  ap (λ (t : Token × Lexer). ok (record t.0 { lexeme = word }, t.1))
                    (ok-injective built.result);
              type_is = built.type_is;
              lexeme_is = refl;
              location_is = built.location_is;
              done = built.done;
              mark = built.mark;
              view = built.view;
            })
      | inr (type, e) ↦
          rw (read, e)
            (record {
              token = record built.token { lexeme = word; type = type };
              lexer = built.lexer;
              result =
                  ap (λ (t : Token × Lexer). ok (record t.0 { lexeme = word; type = type }, t.1))
                    (ok-injective built.result);
              type_is = refl;
              lexeme_is = refl;
              location_is = built.location_is;
              done = built.done;
              mark = built.mark;
              view = built.view;
            })
    ]
