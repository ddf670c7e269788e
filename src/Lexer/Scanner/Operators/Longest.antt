-- ===== src/Lexer/Scanner/Operators/Longest.antt =====
-- The longest operator for each byte that begins more than one of them, in src/lexer.cpp.
use pars_c.Common.{[], ◌∷◌, ◌≡◌, refl, arith, Bytes}
use pars_c.Token.{TokenType}
use pars_c.Lexer.Scanner.Tokens.{either, one_of, dots}
use pars_c.Lexer.Scanner.Operators.{operators, longest}

pub longest_plus :
    (rest : Bytes)
    → longest operators (b'+' ∷ rest)
      ≡ one_of b'+' TokenType.plus_plus b'=' TokenType.plus_equal TokenType.plus (b'+' ∷ []) rest
longest_plus [] = refl
longest_plus (d ∷ rest) = ground arith

pub longest_minus :
    (rest : Bytes)
    → longest operators (b'-' ∷ rest)
      ≡ one_of b'-' TokenType.minus_minus b'=' TokenType.minus_equal TokenType.minus
          (b'-' ∷ [])
          rest
longest_minus [] = refl
longest_minus (d ∷ rest) = ground arith

pub longest_equal :
    (rest : Bytes)
    → longest operators (b'=' ∷ rest)
      ≡ one_of b'=' TokenType.equal_equal b'>' TokenType.arrow TokenType.equal (b'=' ∷ []) rest
longest_equal [] = refl
longest_equal (d ∷ rest) = ground arith

pub longest_star :
    (rest : Bytes)
    → longest operators (b'*' ∷ rest)
      ≡ one_of b'*' TokenType.star_star b'=' TokenType.star_equal TokenType.star (b'*' ∷ []) rest
longest_star [] = refl
longest_star (d ∷ rest) = ground arith

pub longest_slash :
    (rest : Bytes)
    → longest operators (b'/' ∷ rest)
      ≡ either b'=' TokenType.slash_equal TokenType.forward_slash (b'/' ∷ []) rest
longest_slash [] = refl
longest_slash (d ∷ rest) = ground arith

pub longest_less :
    (rest : Bytes)
    → longest operators (b'<' ∷ rest)
      ≡ either b'=' TokenType.less_equal TokenType.less (b'<' ∷ []) rest
longest_less [] = refl
longest_less (d ∷ rest) = ground arith

pub longest_greater :
    (rest : Bytes)
    → longest operators (b'>' ∷ rest)
      ≡ either b'=' TokenType.greater_equal TokenType.greater (b'>' ∷ []) rest
longest_greater [] = refl
longest_greater (d ∷ rest) = ground arith

pub longest_bang :
    (rest : Bytes)
    → longest operators (b'!' ∷ rest)
      ≡ either b'=' TokenType.bang_equal TokenType.bang (b'!' ∷ []) rest
longest_bang [] = refl
longest_bang (d ∷ rest) = ground arith

pub longest_colon :
    (rest : Bytes)
    → longest operators (b':' ∷ rest)
      ≡ either b':' TokenType.colon_colon TokenType.colon (b':' ∷ []) rest
longest_colon [] = refl
longest_colon (d ∷ rest) = ground arith

pub longest_dot : (rest : Bytes) → longest operators (b'.' ∷ rest) ≡ dots (b'.' ∷ []) rest
longest_dot [] = refl
longest_dot (d ∷ []) = ground arith
longest_dot (d ∷ x ∷ rest) = ground arith
