-- ===== src/Lexer/Scanner/Tokens.antt =====
-- The `build_token` functions of src/lexer.cpp that look at the next byte, and the dots.
use pars_c.Common.{
  ℕ, false, inl, inr, arith, [], ◌∷◌, ◌++◌, ◌≡◌, Bool-cases, Bytes, if◌then◌else◌, ◌==◌,
}
use pars_c.TextReader.{Source, skip, match}
use pars_c.TextReader.View.{View, advance-View}
use pars_c.TextReader.Look.{match-View, match-nil}
use pars_c.Token.{TokenType}
use pars_c.Outcome.{ok}
use pars_c.Lexer.State.{Lexer, with_reader, build_token2, build_token3, Lexes, build_token-Lexes}
use pars_c.Lexer.Scanner.{build_dot}

-- The next byte decides between two types.
abbrev pub either : ℕ → TokenType → TokenType → Bytes → Bytes → TokenType × Bytes × Bytes
either match tk1 tk2 lexeme [] = (tk2, lexeme, [])
either match tk1 tk2 lexeme (d ∷ rest) =
    if d == match then (tk1, lexeme ++ d ∷ [], rest) else (tk2, lexeme, d ∷ rest)

-- ... or among three.
abbrev pub one_of :
    ℕ → TokenType → ℕ → TokenType → TokenType → Bytes → Bytes → TokenType × Bytes × Bytes
one_of match1 tk1 match2 tk2 tk3 lexeme [] = (tk3, lexeme, [])
one_of match1 tk1 match2 tk2 tk3 lexeme (d ∷ rest) =
    if d == match1
    then (tk1, lexeme ++ d ∷ [], rest)
    else if d == match2
    then (tk2, lexeme ++ d ∷ [], rest)
    else (tk3, lexeme, d ∷ rest)

-- Behind a dot: `..=`, `...`, `..` or a dot alone.
abbrev pub dots : Bytes → Bytes → TokenType × Bytes × Bytes
dots lexeme [] = (TokenType.dot, lexeme, [])
dots lexeme (d ∷ rest) =
    if d == b'.'
    then one_of b'=' TokenType.dot_dot_equal b'.' TokenType.ellipse TokenType.dot_dot
        (lexeme ++ d ∷ []) rest
    else (TokenType.dot, lexeme, d ∷ rest)

zero_ne : (n : ℕ) → (n == 0) ≡ false → (0 == n) ≡ false
zero_ne n h = ground arith

module _ {s : Source} (l : Lexer) {done lexeme : Bytes} where
  pub build_token2-either :
      (match : ℕ) (tk1 tk2 : TokenType) (rest : Bytes)
      → View s l.reader done lexeme rest
      → (match == 0) ≡ false
      → let k = either match tk1 tk2 lexeme rest in
        Lexes s (ok (build_token2 match tk1 tk2 l)) k.0 k.1 k.2
  unfolding build_token2
  build_token2-either match tk1 tk2 [] v h =
      rw (match-nil match v, zero_ne match h) (build_token-Lexes l tk2 v)
  build_token2-either match tk1 tk2 (d ∷ rest) v h = elim (Bool-cases (d == match)) [
    | inl e ↦
        rw (match-View match d v, e)
          (build_token-Lexes (with_reader l (skip l.reader)) tk1 (advance-View v).1)
    | inr e ↦ rw (match-View match d v, e) (build_token-Lexes l tk2 v)
  ]

  pub build_token3-one_of :
      (match1 : ℕ) (tk1 : TokenType) (match2 : ℕ) (tk2 tk3 : TokenType) (rest : Bytes)
      → View s l.reader done lexeme rest
      → (match1 == 0) ≡ false
      → (match2 == 0) ≡ false
      → let k = one_of match1 tk1 match2 tk2 tk3 lexeme rest in
        Lexes s (ok (build_token3 match1 tk1 match2 tk2 tk3 l)) k.0 k.1 k.2
  unfolding build_token3
  build_token3-one_of match1 tk1 match2 tk2 tk3 [] v h1 h2 =
      rw (match-nil match1 v, zero_ne match1 h1, match-nil match2 v, zero_ne match2 h2)
        (build_token-Lexes l tk3 v)
  build_token3-one_of match1 tk1 match2 tk2 tk3 (d ∷ rest) v h1 h2 =
      elim (Bool-cases (d == match1)) [
        | inl e ↦
            rw (match-View match1 d v, e)
              (build_token-Lexes (with_reader l (skip l.reader)) tk1 (advance-View v).1)
        | inr e ↦ elim (Bool-cases (d == match2)) [
          | inl e2 ↦
              rw (match-View match1 d v, e, match-View match2 d v, e2)
                (build_token-Lexes (with_reader l (skip l.reader)) tk2 (advance-View v).1)
          | inr e2 ↦
              rw (match-View match1 d v, e, match-View match2 d v, e2) (build_token-Lexes l tk3 v)
        ]
      ]

pub build_dot-dots :
    {s : Source} (l : Lexer) {done lexeme : Bytes} (rest : Bytes)
    → View s l.reader done lexeme rest
    → let k = dots lexeme rest in Lexes s (ok (build_dot l)) k.0 k.1 k.2
unfolding build_dot
build_dot-dots l [] v = rw (match-nil b'.' v) (build_token-Lexes l TokenType.dot v)
build_dot-dots l (d ∷ []) v = elim (Bool-cases (d == b'.')) [
  | inl e ↦
      let w = (advance-View v).1 in
      rw (match-View b'.' d v, e, match-nil b'=' w, match-nil b'.' w)
        (build_token-Lexes (with_reader l (skip l.reader)) TokenType.dot_dot w)
  | inr e ↦ rw (match-View b'.' d v, e) (build_token-Lexes l TokenType.dot v)
]
build_dot-dots l (d ∷ x ∷ rest) v = elim (Bool-cases (d == b'.')) [
  | inr e ↦ rw (match-View b'.' d v, e) (build_token-Lexes l TokenType.dot v)
  | inl e ↦
      let w = (advance-View v).1 in
      let r = skip (skip l.reader) in
      elim (Bool-cases (x == b'=')) [
        | inl h ↦
            rw (match-View b'.' d v, e, match-View b'=' x w, h)
              (build_token-Lexes (with_reader l r) TokenType.dot_dot_equal (advance-View w).1)
        | inr h ↦ elim (Bool-cases (x == b'.')) [
          | inl g ↦
              rw (match-View b'.' d v, e, match-View b'=' x w, h, match-View b'.' x w, g)
                (build_token-Lexes (with_reader l r) TokenType.ellipse (advance-View w).1)
          | inr g ↦
              rw (match-View b'.' d v, e, match-View b'=' x w, h, match-View b'.' x w, g)
                (build_token-Lexes (with_reader l (skip l.reader)) TokenType.dot_dot w)
        ]
      ]
]
