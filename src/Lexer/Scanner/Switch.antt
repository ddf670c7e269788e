-- ===== src/Lexer/Scanner/Switch.antt =====
-- The switch of `advance_one`, src/lexer.cpp: what all of its cases have in common.
use pars_c.Common.{◌==◌, ℕ}
use pars_c.Token.{Token, TokenType}
use pars_c.TextReader.{is_identifier, isdigit}
use pars_c.Outcome.{Always, Ensures, if-Ensures}
use pars_c.Lexer.State.{Lexer, build_token, build_token2, build_token3}
use pars_c.Lexer.Literals.{build_char, build_digit, build_identifier, build_string}
use pars_c.Lexer.Scanner.{build_default, build_dot, build_for}

module _ {P : Token × Lexer → Type 0} (l : Lexer)
    (token : (type : TokenType) → P (build_token type l))
    (token2 : (match : ℕ) (tk1 tk2 : TokenType) → P (build_token2 match tk1 tk2 l))
    (token3 : (match1 : ℕ) (tk1 : TokenType) (match2 : ℕ) (tk2 tk3 : TokenType)
      → P (build_token3 match1 tk1 match2 tk2 tk3 l))
    (dot : P (build_dot l)) (string : Always P (build_string l)) (char : Always P (build_char l))
    (digit : P (build_digit l)) (identifier : P (build_identifier l)) where
  build_default-Ensures : (c : ℕ) → Ensures P (build_default c l)
  unfolding build_default
  build_default-Ensures c =
      if-Ensures (isdigit c) _ _ digit
        (if-Ensures (is_identifier c) _ _ identifier (record { holds = tt }))

  -- What every function that the switch calls ensures, the switch ensures.
  pub build_for-Ensures : (c : ℕ) → Ensures P (build_for c l)
  unfolding build_for
  build_for-Ensures c = if-Ensures (c == b'+') _ _ (token3 _ _ _ _ _) (
      if-Ensures (c == b'-') _ _ (token3 _ _ _ _ _) (
        if-Ensures (c == b'=') _ _ (token3 _ _ _ _ _) (
          if-Ensures (c == b'*') _ _ (token3 _ _ _ _ _) (
            if-Ensures (c == b'/') _ _ (token2 _ _ _) (
              if-Ensures (c == b'<') _ _ (token2 _ _ _) (
                if-Ensures (c == b'>') _ _ (token2 _ _ _) (
                  if-Ensures (c == b'!') _ _ (token2 _ _ _) (
                    if-Ensures (c == b':') _ _ (token2 _ _ _) (
                      if-Ensures (c == b'%') _ _ (token _) (
                        if-Ensures (c == b'$') _ _ (token _) (
                          if-Ensures (c == b'&') _ _ (token _) (
                            if-Ensures (c == b'|') _ _ (token _) (
                              if-Ensures (c == b'(') _ _ (token _) (
                                if-Ensures (c == b')') _ _ (token _) (
                                  if-Ensures (c == b'{') _ _ (token _) (
                                    if-Ensures (c == b'}') _ _ (token _) (
                                      if-Ensures (c == b'#') _ _ (token _) (
                                        if-Ensures (c == b'@') _ _ (token _) (
                                          if-Ensures (c == b'~') _ _ (token _) (
                                            if-Ensures (c == b',') _ _ (token _) (
                                              if-Ensures (c == b';') _ _ (token _) (
                                                if-Ensures (c == b'?') _ _ (token _) (
                                                  if-Ensures (c == b'^') _ _ (token _) (
                                                    if-Ensures (c == b'[') _ _ (token _) (
                                                      if-Ensures (c == b']') _ _ (token _) (
                                                        if-Ensures (c == b'"') _ _ string (
                                                          if-Ensures (c == b'\'') _ _ char (
                                                            if-Ensures (c == 0) _ _ (token _) (
                                                            if-Ensures (c == b'.') _ _ dot (
                                                            build_default-Ensures
                                                            c))))))))))))))))))))))))))))))
