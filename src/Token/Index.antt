-- ===== src/Token/Index.antt =====
-- The numbering of the token types of src/token.hpp.
use pars_c.Common.{true, List, [], ◌∷◌, ◌≡◌, refl, sym, ap, ◌∙◌, ◌↔◌, get_or, ==_iff}
use pars_c.Token.{TokenType, index, type_eq}

abbrev all_types : List TokenType
all_types =
    TokenType.token_error ∷ TokenType.colon ∷ TokenType.colon_colon ∷ TokenType.question
    ∷ TokenType.comparison_start ∷ TokenType.greater ∷ TokenType.greater_equal ∷ TokenType.less
    ∷ TokenType.less_equal ∷ TokenType.and_kw ∷ TokenType.or_kw ∷ TokenType.bang_equal
    ∷ TokenType.equal_equal ∷ TokenType.comparison_end ∷ TokenType.binary_start ∷ TokenType.minus
    ∷ TokenType.plus ∷ TokenType.forward_slash ∷ TokenType.star ∷ TokenType.star_star
    ∷ TokenType.percent ∷ TokenType.dot_dot ∷ TokenType.dot_dot_equal ∷ TokenType.binary_end
    ∷ TokenType.unary_start ∷ TokenType.tilde ∷ TokenType.caret ∷ TokenType.at ∷ TokenType.bang
    ∷ TokenType.unary_end ∷ TokenType.assignment_start ∷ TokenType.plus_equal
    ∷ TokenType.minus_equal ∷ TokenType.star_equal ∷ TokenType.slash_equal ∷ TokenType.equal
    ∷ TokenType.assignment_end ∷ TokenType.plus_plus ∷ TokenType.minus_minus ∷ TokenType.left_paren
    ∷ TokenType.right_paren ∷ TokenType.left_brace ∷ TokenType.right_brace ∷ TokenType.left_bracket
    ∷ TokenType.right_bracket ∷ TokenType.comma ∷ TokenType.dollar ∷ TokenType.hash ∷ TokenType.dot
    ∷ TokenType.ellipse ∷ TokenType.semi_colon ∷ TokenType.ampersand ∷ TokenType.pipe
    ∷ TokenType.arrow ∷ TokenType.fn_kw ∷ TokenType.true_kw ∷ TokenType.else_kw ∷ TokenType.false_kw
    ∷ TokenType.return_kw ∷ TokenType.import_kw ∷ TokenType.attribute_keyword_start
    ∷ TokenType.extern_kw ∷ TokenType.private_kw ∷ TokenType.static_kw ∷ TokenType.volatile_kw
    ∷ TokenType.attribute_keyword_end ∷ TokenType.const_kw ∷ TokenType.inout_kw ∷ TokenType.var_kw
    ∷ TokenType.let_kw ∷ TokenType.imut_kw ∷ TokenType.align_of_kw ∷ TokenType.type_of_kw
    ∷ TokenType.alias_kw ∷ TokenType.distinct_kw ∷ TokenType.enum_kw ∷ TokenType.error_kw
    ∷ TokenType.async_kw ∷ TokenType.await_kw ∷ TokenType.for_kw ∷ TokenType.in_kw ∷ TokenType.if_kw
    ∷ TokenType.loop_kw ∷ TokenType.while_kw ∷ TokenType.match_kw ∷ TokenType.continue_kw
    ∷ TokenType.break_kw ∷ TokenType.cast_kw ∷ TokenType.nil_kw ∷ TokenType.identifier
    ∷ TokenType.string_literal ∷ TokenType.char_literal ∷ TokenType.integer_literal
    ∷ TokenType.uinteger_literal ∷ TokenType.linteger_literal ∷ TokenType.ulinteger_literal
    ∷ TokenType.decimal_literal ∷ TokenType.ldecimal_literal ∷ TokenType.sizeof_kw
    ∷ TokenType.nameof_kw ∷ TokenType.struct_kw ∷ TokenType.impl_kw ∷ TokenType.trait_kw
    ∷ TokenType.union_kw ∷ TokenType.eof ∷ []

of_index-index : (t : TokenType) → get_or all_types (index t) TokenType.token_error ≡ t
unfolding index
of_index-index TokenType.token_error = refl
of_index-index _ = refl

pub index-injective : (a b : TokenType) → index a ≡ index b → a ≡ b
index-injective a b h =
    sym (of_index-index a) ∙ ap (λ n. get_or all_types n TokenType.token_error) h ∙ of_index-index b

-- Two types have the same number just if they are the same.
pub type_eq_iff : (a b : TokenType) → (type_eq a b ≡ true) ↔ (a ≡ b)
unfolding type_eq
type_eq_iff a b = (
  λ h. index-injective a b ((==_iff (index a) (index b)).0 h),
  λ e. (==_iff (index a) (index b)).1 (ap index e),
)

pub type_eq_self : (a : TokenType) → type_eq a a ≡ true
type_eq_self a = (type_eq_iff a a).1 refl
