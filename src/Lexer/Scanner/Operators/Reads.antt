-- ===== src/Lexer/Scanner/Operators/Reads.antt =====
-- The switch of `advance_one` in src/lexer.cpp on the bytes that an operator can begin with.
use pars_c.Lexer.Strings.Escapes.{elem}
use mathlib.Core.Path.{subst}
use pars_c.Common.{◌==◌, inr, inl, ==_iff, Bool-cases, true, ℕ, [], ◌∷◌, ◌≡◌, refl, sym, Bytes}
use pars_c.Token.{TokenType, Token}
use pars_c.Outcome.{Outcome}
use pars_c.TextReader.{Source}
use pars_c.TextReader.View.{View}
use pars_c.Lexer.State.{Lexer, Lexes, build_token-Lexes}
use pars_c.Lexer.Scanner.{build_for}
use pars_c.Lexer.Scanner.Tokens.{build_token2-either, build_token3-one_of, build_dot-dots}
use pars_c.Lexer.Scanner.Operators.{operators, longest, operator_bytes, All}
use pars_c.Lexer.Scanner.Operators.Longest.{
  longest_plus, longest_minus, longest_equal, longest_star, longest_slash, longest_less,
  longest_greater, longest_bang, longest_colon, longest_dot,
}

abbrev LexesAs : Source → Outcome (Token × Lexer) → TokenType × Bytes × Bytes → Type 0
LexesAs s call k = Lexes s call k.0 k.1 k.2

retell :
    {s : Source} {call : Outcome (Token × Lexer)} (k k' : TokenType × Bytes × Bytes)
    → k' ≡ k
    → LexesAs s call k
    → LexesAs s call k'
retell k k' e h = subst (LexesAs _ _) (sym e) h

-- The lexer has read the byte `c`; whatever follows, the switch takes the longest operator.
abbrev pub ReadsLongest : Source → Lexer → Bytes → ℕ → Type 0
ReadsLongest s l done c =
    (rest : Bytes)
    → View s l.reader done (c ∷ []) rest
    → LexesAs s (build_for c l) (longest operators (c ∷ rest))

build_for-All : (s : Source) (l : Lexer) (done : Bytes) → All (ReadsLongest s l done) operator_bytes
unfolding build_for
build_for-All s l done = (
  (λ rest v. retell _ _ (longest_plus rest) (
      build_token3-one_of l b'+' TokenType.plus_plus b'=' TokenType.plus_equal TokenType.plus rest v
        refl refl)),
  (
    (λ rest v. retell _ _ (longest_minus rest) (
        build_token3-one_of l b'-' TokenType.minus_minus b'=' TokenType.minus_equal TokenType.minus
          rest v refl refl)),
    (
      (λ rest v. retell _ _ (longest_equal rest) (
          build_token3-one_of l b'=' TokenType.equal_equal b'>' TokenType.arrow TokenType.equal rest
            v refl refl)),
      (
        (λ rest v. retell _ _ (longest_star rest) (
            build_token3-one_of l b'*' TokenType.star_star b'=' TokenType.star_equal TokenType.star
              rest v refl refl)),
        (
          (λ rest v. retell _ _ (longest_slash rest) (
              build_token2-either l b'=' TokenType.slash_equal TokenType.forward_slash rest v
                refl)),
          (
            (λ rest v.
                retell _ _ (longest_less rest)
                  (build_token2-either l b'=' TokenType.less_equal TokenType.less rest v refl)),
            (
              (λ rest v. retell _ _ (longest_greater rest) (
                  build_token2-either l b'=' TokenType.greater_equal TokenType.greater rest v
                    refl)),
              (
                (λ rest v.
                    retell _ _ (longest_bang rest)
                      (build_token2-either l b'=' TokenType.bang_equal TokenType.bang rest v refl)),
                (
                  (λ rest v. retell _ _ (longest_colon rest) (
                      build_token2-either l b':' TokenType.colon_colon TokenType.colon rest v
                        refl)),
                  (
                    (λ rest v. build_token-Lexes l TokenType.percent v),
                    (
                      (λ rest v. build_token-Lexes l TokenType.dollar v),
                      (
                        (λ rest v. build_token-Lexes l TokenType.ampersand v),
                        (
                          (λ rest v. build_token-Lexes l TokenType.pipe v),
                          (
                            (λ rest v. build_token-Lexes l TokenType.left_paren v),
                            (
                              (λ rest v. build_token-Lexes l TokenType.right_paren v),
                              (
                                (λ rest v. build_token-Lexes l TokenType.left_brace v),
                                (
                                  (λ rest v. build_token-Lexes l TokenType.right_brace v),
                                  (
                                    (λ rest v. build_token-Lexes l TokenType.hash v),
                                    (
                                      (λ rest v. build_token-Lexes l TokenType.at v),
                                      (
                                        (λ rest v. build_token-Lexes l TokenType.tilde v),
                                        (
                                          (λ rest v. build_token-Lexes l TokenType.comma v),
                                          (
                                            (λ rest v. build_token-Lexes l TokenType.semi_colon v),
                                            (
                                              (λ rest v. build_token-Lexes l TokenType.question v),
                                              (
                                                (λ rest v. build_token-Lexes l TokenType.caret v),
                                                (
                                                  (λ rest v.
                                                      build_token-Lexes l TokenType.left_bracket v),
                                                  (
                                                    (λ rest v.
                                                        build_token-Lexes l TokenType.right_bracket
                                                          v),
                                                    (
                                                      (λ rest v.
                                                          retell _ _ (longest_dot rest)
                                                            (build_dot-dots l rest v)),
                                                      tt,
                                                    ),
                                                  ),
                                                ),
                                              ),
                                            ),
                                          ),
                                        ),
                                      ),
                                    ),
                                  ),
                                ),
                              ),
                            ),
                          ),
                        ),
                      ),
                    ),
                  ),
                ),
              ),
            ),
          ),
        ),
      ),
    ),
  ),
)

lookup_All : (P : ℕ → Type 0) (bytes : Bytes) (c : ℕ) → All P bytes → elem c bytes ≡ true → P c
lookup_All P [] c all h = cc
lookup_All P (b ∷ bytes) c all h = elim (Bool-cases (c == b)) [
  | inl e ↦ subst P (sym ((==_iff c b).0 e)) all.0
  | inr e ↦ lookup_All P bytes c all.1 (rw e at h)
]

-- Behind every byte that an operator can begin with, the token has the type and the lexeme of
-- the longest operator that the text begins with there, and what follows it is left.
pub build_for-longest :
    {s : Source} (l : Lexer) {done : Bytes} (c : ℕ) (rest : Bytes)
    → elem c operator_bytes ≡ true
    → View s l.reader done (c ∷ []) rest
    → let k = longest operators (c ∷ rest) in Lexes s (build_for c l) k.0 k.1 k.2
build_for-longest {s} l {done} c rest h =
    lookup_All (ReadsLongest s l done) operator_bytes c (build_for-All s l done) h rest
