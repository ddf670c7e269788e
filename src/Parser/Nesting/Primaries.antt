-- ===== src/Parser/Nesting/Primaries.antt =====
-- The operands of the binary operators: primary and unary expressions of src/ast.cpp.
use pars_c.Common.{Bool, Bytes, false, suc, true, zero, ℕ}
use pars_c.Token.{Token}
use pars_c.Syntax.{Expr, Exprs, binary, index_op, null_expr, slice}
use pars_c.Parser.State.{Calls, StdLib, ◌>>=◌}
use pars_c.Parser.Literals.{parse_literal}
use pars_c.Parser.Primary.{
  parse_abs, parse_array_literal, parse_cast, parse_group, parse_identifier, parse_keyword,
  parse_marked, parse_primary_inner, parse_ptr_op, struct_or_symbol,
}
use pars_c.Parser.Postfix.{
  Indexing, at_literal, at_test, index_loop, parse_call, parse_index, parse_member, parse_slice,
  parse_suffix, primary_from, put_inner_token, put_token,
}
use pars_c.Parser.Returns.{
  Yields, Yields-exhausted, Yields-if, Yields-pure, first_match-cons, first_match-nil, then_lem,
  ◌▸◌,
}
use pars_c.Parser.Nesting.{IsPrimary}
use pars_c.Parser.Postfix

IsPrimaryEnd : Indexing → Type 0
IsPrimaryEnd (at_test lhs) = IsPrimary lhs
IsPrimaryEnd (at_literal e) = IsPrimary e

put_token-IsPrimary : (token : Token) (e : Expr) → IsPrimary e → IsPrimary (put_token token e)
unfolding put_token
put_token-IsPrimary token null_expr h = tt
put_token-IsPrimary token (slice node lhs start end) h = tt
put_token-IsPrimary token (index_op node lhs index) h = tt
put_token-IsPrimary token (binary node left op right) h = h
put_token-IsPrimary token _ h = tt

put_inner_token-IsPrimary :
    (inner lhs : Expr) → IsPrimary inner → IsPrimary lhs → IsPrimary (put_inner_token inner lhs)
unfolding put_inner_token
put_inner_token-IsPrimary inner null_expr h k = h
put_inner_token-IsPrimary inner (binary node left op right) h k = absurd k
put_inner_token-IsPrimary inner _ h k = tt

parse_literal-IsPrimary : (std : StdLib) → Yields IsPrimary (parse_literal std)
unfolding parse_literal
parse_literal-IsPrimary std =
    then_lem _ λ node. then_lem _ λ (value, type). then_lem _ λ token. Yields-pure _ _ tt

module _ (c : Calls) where
  parse_array_literal-IsPrimary :
      (specifier : Expr) (before : Exprs → Exprs)
      → Yields IsPrimary (parse_array_literal c specifier before)
  unfolding parse_array_literal
  parse_array_literal-IsPrimary specifier before =
      then_lem _ λ node. then_lem _ λ es. then_lem _ λ _. Yields-pure _ _ tt

  parse_group-IsPrimary : Yields IsPrimary (parse_group c)
  unfolding parse_group
  parse_group-IsPrimary = then_lem _ λ inner. then_lem _ λ node. then_lem _ λ _. Yields-pure _ _ tt

  struct_or_symbol-IsPrimary :
      (name : Bytes) (braced : Bool) → Yields IsPrimary (struct_or_symbol c name braced)
  unfolding struct_or_symbol
  struct_or_symbol-IsPrimary name true = then_lem _ λ node. then_lem _ λ es. Yields-pure _ _ tt
  struct_or_symbol-IsPrimary name false = then_lem _ λ node. Yields-pure _ _ tt

  parse_identifier-IsPrimary : Yields IsPrimary (parse_identifier c)
  unfolding parse_identifier
  parse_identifier-IsPrimary = then_lem _ λ name. then_lem _ λ is_named.
      Yields-if is_named (then_lem _ λ value. then_lem _ λ node. Yields-pure _ _ tt)
        (then_lem _ λ allowed. then_lem _ λ braced. struct_or_symbol-IsPrimary name.lexeme braced)

  parse_cast-IsPrimary : Yields IsPrimary (parse_cast c)
  unfolding parse_cast
  parse_cast-IsPrimary = then_lem _ λ _.
      then_lem _ λ node.
        then_lem _ λ (type, mut_set). then_lem _ λ _. then_lem _ λ target. Yields-pure _ _ tt

  parse_ptr_op-IsPrimary : Yields IsPrimary (parse_ptr_op c)
  unfolding parse_ptr_op
  parse_ptr_op-IsPrimary =
      then_lem _ λ node. then_lem _ λ op. then_lem _ λ target. Yields-pure _ _ tt

  parse_abs-IsPrimary : Yields IsPrimary (parse_abs c)
  unfolding parse_abs
  parse_abs-IsPrimary = then_lem _ λ value. then_lem _ λ node. then_lem _ λ _. Yields-pure _ _ tt

  parse_keyword-IsPrimary : Yields IsPrimary (parse_keyword c)
  unfolding parse_keyword
  parse_keyword-IsPrimary = then_lem _ λ _. then_lem _ λ node. Yields-pure _ _ tt

  parse_marked-IsPrimary : Yields IsPrimary (parse_marked c)
  unfolding parse_marked
  parse_marked-IsPrimary =
      first_match-cons _ _ _ _ (then_lem _ λ node. then_lem _ λ es. Yields-pure _ _ tt) (
        first_match-cons _ _ _ _ parse_abs-IsPrimary (
          first_match-cons _ _ _ _ parse_ptr_op-IsPrimary (
            first_match-cons _ _ _ _ parse_ptr_op-IsPrimary (
              first_match-cons _ _ _ _ (then_lem _ λ node. Yields-pure _ _ tt) (
                first_match-cons _ _ _ _ (parse_array_literal-IsPrimary _ _)
                  (first_match-nil _ (Yields-pure _ null_expr tt)))))))

  parse_primary_inner-IsPrimary : Yields IsPrimary (parse_primary_inner c)
  unfolding parse_primary_inner
  parse_primary_inner-IsPrimary = first_match-cons _ _ _ _ parse_group-IsPrimary (
      first_match-cons _ _ _ _ parse_identifier-IsPrimary (
        first_match-cons _ _ _ _ (then_lem _ λ e. then_lem _ λ node. Yields-pure _ _ tt) (
          first_match-cons _ _ _ _ (then_lem _ λ e. then_lem _ λ node. Yields-pure _ _ tt) (
            first_match-cons _ _ _ _ parse_cast-IsPrimary (
              first_match-nil _ (
                then_lem _ λ attribute.
                  Yields-if attribute parse_keyword-IsPrimary parse_marked-IsPrimary))))))

  parse_slice-IsPrimary : (lhs start : Expr) → Yields IsPrimary (parse_slice c lhs start)
  unfolding parse_slice
  parse_slice-IsPrimary lhs start =
      then_lem _ λ node. then_lem _ λ open_end. then_lem _ λ end. then_lem _ λ _. Yields-pure _ _ tt

  parse_index-IsPrimary : (lhs index : Expr) → Yields IsPrimary (parse_index c lhs index)
  unfolding parse_index
  parse_index-IsPrimary lhs index = then_lem _ λ node. then_lem _ λ _. Yields-pure _ _ tt

  index_loop-IsPrimaryEnd :
      (n : ℕ) (inner lhs : Expr) → IsPrimary lhs → Yields IsPrimaryEnd (index_loop c n inner lhs)
  unfolding index_loop IsPrimaryEnd
  index_loop-IsPrimaryEnd zero inner lhs h = Yields-exhausted _
  index_loop-IsPrimaryEnd (suc n) inner lhs h = then_lem _ λ found.
      Yields-if _ (Yields-pure _ _ h) (
        then_lem _ λ open_start. then_lem _ λ index. then_lem _ λ is_slice.
          Yields-if is_slice
            (parse_slice-IsPrimary _ index ▸ λ e p. index_loop-IsPrimaryEnd n inner e p)
            (then_lem _ λ is_literal.
              Yields-if is_literal (parse_array_literal-IsPrimary _ _ ▸ λ e p. Yields-pure _ _ p)
                (parse_index-IsPrimary _ index ▸ λ e p. index_loop-IsPrimaryEnd n inner e p)))

  parse_suffix-IsPrimary :
      (inner : Expr) (end : Indexing)
      → IsPrimary inner
      → IsPrimaryEnd end
      → Yields IsPrimary (parse_suffix c inner end)
  unfolding parse_suffix IsPrimaryEnd parse_member parse_call
  parse_suffix-IsPrimary inner (at_literal e) h k = Yields-pure _ e k
  parse_suffix-IsPrimary inner (at_test lhs) h k = then_lem _ λ is_member.
      Yields-if is_member
        (then_lem _ λ node. then_lem _ λ is_static. then_lem _ λ accessor. Yields-pure _ _ tt)
        (then_lem _ λ is_call.
          Yields-if is_call
            (then_lem _ λ arguments. then_lem _ λ node. then_lem _ λ _. Yields-pure _ _ tt)
            (Yields-pure _ _ (put_inner_token-IsPrimary inner lhs h k)))

  indexed-IsPrimary :
      (inner : Expr)
      → IsPrimary inner
      → Yields IsPrimary (index_loop c c.rounds inner null_expr >>= parse_suffix c inner)
  indexed-IsPrimary inner h = index_loop-IsPrimaryEnd c.rounds inner null_expr tt ▸ λ end k.
      parse_suffix-IsPrimary inner end h k

  primary_from-IsPrimary :
      (std : StdLib) (e : Expr) → IsPrimary e → Yields IsPrimary (primary_from c std e)
  unfolding primary_from
  primary_from-IsPrimary std null_expr h = parse_literal-IsPrimary std
  primary_from-IsPrimary std e h = indexed-IsPrimary e h

  pub parse_primary-IsPrimary : (std : StdLib) → Yields IsPrimary (Postfix.parse_primary c std)
  unfolding Postfix.parse_primary
  parse_primary-IsPrimary std = parse_primary_inner-IsPrimary ▸ primary_from-IsPrimary std

  -- What `parse_unary` returns is a primary expression or a unary one.
  pub parse_unary-IsPrimary : (std : StdLib) → Yields IsPrimary (Postfix.parse_unary c std)
  unfolding Postfix.parse_unary
  parse_unary-IsPrimary std = then_lem _ λ is_unary.
      Yields-if is_unary
        (then_lem _
          λ op. then_lem _ λ right. then_lem _ λ node. then_lem _ λ char. Yields-pure _ _ tt)
        (parse_primary-IsPrimary std)
