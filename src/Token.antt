-- ===== src/Token.antt =====
-- src/token.hpp and the test of src/token.cpp: token types in the order of the enumeration,
-- whose marks (`_BinaryStart`, ...) stand among them, and tokens.
pub mod Index
use pars_c.Common.{ℕ, Bool, ◌&&◌, [], Bytes, ltb, ◌==◌}

-- `_kw` marks the keywords; some of them are words of this language too.
pub data TokenType : Type 0 where
  token_error colon colon_colon question comparison_start greater greater_equal less : TokenType
  less_equal and_kw or_kw bang_equal equal_equal comparison_end binary_start minus plus : TokenType
  forward_slash star star_star percent dot_dot dot_dot_equal binary_end unary_start tilde :
      TokenType
  caret at bang unary_end assignment_start plus_equal minus_equal star_equal slash_equal : TokenType
  equal assignment_end plus_plus minus_minus left_paren right_paren left_brace right_brace :
      TokenType
  left_bracket right_bracket comma dollar hash dot ellipse semi_colon ampersand pipe arrow :
      TokenType
  fn_kw true_kw else_kw false_kw return_kw import_kw attribute_keyword_start extern_kw : TokenType
  private_kw static_kw volatile_kw attribute_keyword_end const_kw inout_kw var_kw let_kw : TokenType
  imut_kw align_of_kw type_of_kw alias_kw distinct_kw enum_kw error_kw async_kw await_kw : TokenType
  for_kw in_kw if_kw loop_kw while_kw match_kw continue_kw break_kw cast_kw nil_kw : TokenType
  identifier string_literal char_literal integer_literal uinteger_literal linteger_literal :
      TokenType
  ulinteger_literal decimal_literal ldecimal_literal sizeof_kw nameof_kw struct_kw impl_kw :
      TokenType
  trait_kw union_kw eof : TokenType

-- the underlying number of an enumerator, by which the source compares
unfoldable pub index : TokenType → ℕ
index TokenType.token_error = 0
index TokenType.colon = 1
index TokenType.colon_colon = 2
index TokenType.question = 3
index TokenType.comparison_start = 4
index TokenType.greater = 5
index TokenType.greater_equal = 6
index TokenType.less = 7
index TokenType.less_equal = 8
index TokenType.and_kw = 9
index TokenType.or_kw = 10
index TokenType.bang_equal = 11
index TokenType.equal_equal = 12
index TokenType.comparison_end = 13
index TokenType.binary_start = 14
index TokenType.minus = 15
index TokenType.plus = 16
index TokenType.forward_slash = 17
index TokenType.star = 18
index TokenType.star_star = 19
index TokenType.percent = 20
index TokenType.dot_dot = 21
index TokenType.dot_dot_equal = 22
index TokenType.binary_end = 23
index TokenType.unary_start = 24
index TokenType.tilde = 25
index TokenType.caret = 26
index TokenType.at = 27
index TokenType.bang = 28
index TokenType.unary_end = 29
index TokenType.assignment_start = 30
index TokenType.plus_equal = 31
index TokenType.minus_equal = 32
index TokenType.star_equal = 33
index TokenType.slash_equal = 34
index TokenType.equal = 35
index TokenType.assignment_end = 36
index TokenType.plus_plus = 37
index TokenType.minus_minus = 38
index TokenType.left_paren = 39
index TokenType.right_paren = 40
index TokenType.left_brace = 41
index TokenType.right_brace = 42
index TokenType.left_bracket = 43
index TokenType.right_bracket = 44
index TokenType.comma = 45
index TokenType.dollar = 46
index TokenType.hash = 47
index TokenType.dot = 48
index TokenType.ellipse = 49
index TokenType.semi_colon = 50
index TokenType.ampersand = 51
index TokenType.pipe = 52
index TokenType.arrow = 53
index TokenType.fn_kw = 54
index TokenType.true_kw = 55
index TokenType.else_kw = 56
index TokenType.false_kw = 57
index TokenType.return_kw = 58
index TokenType.import_kw = 59
index TokenType.attribute_keyword_start = 60
index TokenType.extern_kw = 61
index TokenType.private_kw = 62
index TokenType.static_kw = 63
index TokenType.volatile_kw = 64
index TokenType.attribute_keyword_end = 65
index TokenType.const_kw = 66
index TokenType.inout_kw = 67
index TokenType.var_kw = 68
index TokenType.let_kw = 69
index TokenType.imut_kw = 70
index TokenType.align_of_kw = 71
index TokenType.type_of_kw = 72
index TokenType.alias_kw = 73
index TokenType.distinct_kw = 74
index TokenType.enum_kw = 75
index TokenType.error_kw = 76
index TokenType.async_kw = 77
index TokenType.await_kw = 78
index TokenType.for_kw = 79
index TokenType.in_kw = 80
index TokenType.if_kw = 81
index TokenType.loop_kw = 82
index TokenType.while_kw = 83
index TokenType.match_kw = 84
index TokenType.continue_kw = 85
index TokenType.break_kw = 86
index TokenType.cast_kw = 87
index TokenType.nil_kw = 88
index TokenType.identifier = 89
index TokenType.string_literal = 90
index TokenType.char_literal = 91
index TokenType.integer_literal = 92
index TokenType.uinteger_literal = 93
index TokenType.linteger_literal = 94
index TokenType.ulinteger_literal = 95
index TokenType.decimal_literal = 96
index TokenType.ldecimal_literal = 97
index TokenType.sizeof_kw = 98
index TokenType.nameof_kw = 99
index TokenType.struct_kw = 100
index TokenType.impl_kw = 101
index TokenType.trait_kw = 102
index TokenType.union_kw = 103
index TokenType.eof = 104

-- `==` on token types
unfoldable pub type_eq : TokenType → TokenType → Bool
unfolding index
type_eq a b = index a == index b

-- `type > low && type < high`, as the source tests a range of the enumeration
unfoldable pub between : TokenType → TokenType → TokenType → Bool
unfolding index
between low high type = ltb (index low) (index type) && ltb (index type) (index high)

unfoldable pub is_binary_op : TokenType → Bool
unfolding between
is_binary_op type = between TokenType.binary_start TokenType.binary_end type

-- src/location.hpp
pub record Location : Type 0 where
  pub offset : ℕ
  pub line : ℕ
  pub file_id : ℕ
  pub column : ℕ

pub record Token : Type 0 where
  pub location : Location
  pub type : TokenType
  pub lexeme : Bytes

-- `Token{}`: all zeros
abbrev pub no_token : Token
no_token = record {
  location = record { offset = 0; line = 0; file_id = 0; column = 0 };
  type = TokenType.token_error;
  lexeme = [];
}
