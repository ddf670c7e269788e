-- ===== src/Lexer/State.antt =====
-- The state of the lexer of src/lexer.hpp, and the `build_token` functions of src/lexer.cpp. The
-- escape buffer is a global that all lexers share; it is threaded through with the lexer.
use pars_c.Common.{refl, ◌++◌, ◌≡◌, ℕ, Option, [], ◌∷◌, Bytes, if◌then◌else◌}
use pars_c.TextReader
use pars_c.TextReader.{sync, TextReader, Source, slice}
use pars_c.Token.{TokenType, Location, Token}
use pars_c.Arena.{Arena}
use pars_c.Outcome.{Outcome, ok}
use pars_c.TextReader.View.{slice-View, View}

pub record Lexer : Type 0 where
  pub file_id : ℕ
  pub reader : TextReader
  pub last_token : Option Token
  pub current_token : Option Token
  pub next_token : Option Token
  pub escape_buffer : Arena

-- src/file_manager.hpp
pub record SourceFile : Type 0 where
  pub id : ℕ
  pub path : Bytes
  pub contents : Source

-- The three tokens are as they were.
unfoldable pub set_source : SourceFile → Lexer → Lexer
set_source source l = record l {
  file_id = source.id;
  reader = TextReader.set_source source.contents;
}

abbrev pub with_reader : Lexer → TextReader → Lexer
with_reader l r = record l { reader = r }

abbrev pub location_of : Lexer → Location
location_of l = record {
  offset = l.reader.offset;
  line = l.reader.current_line;
  file_id = l.file_id;
  column = l.reader.current_column;
}

-- `lexeme_override.empty() ? m_reader.slice() : lexeme_override`
unfoldable pub build_token_with : TokenType → Bytes → Lexer → Token × Lexer
build_token_with type [] l = (
  record { location = location_of l; type = type; lexeme = (slice l.reader).0 },
  with_reader l (slice l.reader).1,
)
build_token_with type (c ∷ cs) l =
    (record { location = location_of l; type = type; lexeme = c ∷ cs }, l)

unfoldable pub build_token : TokenType → Lexer → Token × Lexer
build_token type = build_token_with type []

-- `build_token(match, tk1, tk2)`
unfoldable pub build_token2 : ℕ → TokenType → TokenType → Lexer → Token × Lexer
build_token2 match tk1 tk2 l =
    let (found, r) = TextReader.match match l.reader in
    build_token (if found then tk1 else tk2) (with_reader l r)

-- `build_token(match1, tk1, match2, tk2, tk3)`
unfoldable pub build_token3 : ℕ → TokenType → ℕ → TokenType → TokenType → Lexer → Token × Lexer
build_token3 match1 tk1 match2 tk2 tk3 l =
    let (found1, r1) = TextReader.match match1 l.reader in
    let (found2, r2) = TextReader.match match2 r1 in
    if found1
    then build_token tk1 (with_reader l r1)
    else if found2
    then build_token tk2 (with_reader l r2)
    else build_token tk3 (with_reader l r2)

-- The type is that of the keyword `error`, not `TokenError`.
unfoldable pub build_error : Bytes → Lexer → Token × Lexer
build_error message = build_token_with TokenType.error_kw message

-- A call that reads a token: its type, its lexeme and its place, and what is left behind it.
pub record Lexes (s : Source) (call : Outcome (Token × Lexer)) (type : TokenType)
    (lexeme rest : Bytes) : Type 0 where
  pub token : Token
  pub lexer : Lexer
  pub result : call ≡ ok (token, lexer)
  pub type_is : token.type ≡ type
  pub lexeme_is : token.lexeme ≡ lexeme
  pub location_is : token.location ≡ location_of lexer
  pub done : Bytes
  pub mark : Bytes
  pub view : View s lexer.reader done mark rest

-- `build_token` takes the lexeme under way.
pub build_token-Lexes :
    {s : Source} (l : Lexer) {done lexeme rest : Bytes} (type : TokenType)
    → View s l.reader done lexeme rest
    → Lexes s (ok (build_token type l)) type lexeme rest
unfolding build_token build_token_with
build_token-Lexes l {done} {lexeme} type v =
    let (cut, v') = slice-View v in
    record {
      token = record { location = location_of l; type = type; lexeme = lexeme };
      lexer = with_reader l (sync l.reader);
      result = rw cut;
      type_is = refl;
      lexeme_is = refl;
      location_is = unfold sync in refl;
      done = done ++ lexeme;
      mark = [];
      view = v';
    }

-- A message or a lexeme that is not empty is taken as it is, and the reader stays.
pub build_token_with-Lexes :
    {s : Source} (l : Lexer) {done mark rest : Bytes} (type : TokenType) (c : ℕ) (cs : Bytes)
    → View s l.reader done mark rest
    → Lexes s (ok (build_token_with type (c ∷ cs) l)) type (c ∷ cs) rest
unfolding build_token_with
build_token_with-Lexes l {done} {mark} type c cs v = record {
  token = record { location = location_of l; type = type; lexeme = c ∷ cs };
  lexer = l;
  result = refl;
  type_is = refl;
  lexeme_is = refl;
  location_is = refl;
  done = done;
  mark = mark;
  view = v;
}
