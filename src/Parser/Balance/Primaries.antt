-- ===== src/Parser/Balance/Primaries.antt =====
-- The stacks and the attributes under the functions of src/ast.cpp on expressions.
use pars_c.Common.{Bool, Bytes, List, [], false, if◌then◌else◌, suc, true, zero, ℕ, ◌∷◌}
use pars_c.Token.{TokenType}
use pars_c.Syntax.{Expr, Exprs, Node, nameof_expr, null_expr, sizeof_expr}
use pars_c.Parser.State.{Calls, Parser, StdLib, new_node, peek_between, pure, ◌>>=◌}
use pars_c.Parser.Binary.{
  binary_loop, parse_and, parse_binary_rule, parse_comparison, parse_equality, parse_exp,
  parse_factor, parse_or, parse_range, parse_term,
}
use pars_c.Parser.Literals.{first_byte, literal_value, parse_literal, parse_word}
use pars_c.Parser.Primary.{
  array_elements, collect_call_arguments, expressions_until, parse_abs, parse_array_literal,
  parse_brace_list, parse_cast, parse_group, parse_identifier, parse_keyword, parse_marked,
  parse_primary_inner, parse_ptr_op, struct_or_symbol,
}
use pars_c.Parser.Postfix.{
  Indexing, at_literal, at_test, index_loop, parse_call, parse_index, parse_member, parse_slice,
  parse_suffix, primary_from,
}
use pars_c.Parser.Balance.{
  Keeping, Keeping-exhausted, Keeping-gets, Keeping-if, Keeping-lexing, Keeping-pure, Kept-refl,
  can_initialize-Keeping, cases_keep, first_match-cons, first_match-nil, match_one_of-Keeping,
  new_node-Keeping, peek_between-Keeping, ◌▸◌,
}
use pars_c.Parser.Binary
use pars_c.Parser.Postfix

pub record KeepingCalls (c : Calls) : Type 0 where
  pub expression : Keeping c.expression
  pub parse_unary : Keeping c.parse_unary
  pub parse_primary : Keeping c.parse_primary
  pub parse_type :
      (mut_set : ℕ) (position : ℕ) (imut_override : Bool)
      → Keeping (c.parse_type mut_set position imut_override)
  pub declaration : Keeping c.declaration
  pub parse_if : Keeping c.parse_if

binary_loop-Keeping :
    (n : ℕ) (ops : List TokenType) (rule : Parser Expr) (left : Expr)
    → Keeping rule
    → Keeping (binary_loop n ops rule left)
unfolding binary_loop
binary_loop-Keeping zero ops rule left h = Keeping-exhausted
binary_loop-Keeping (suc n) ops rule left h = match_one_of-Keeping ops ▸ λ more.
    Keeping-if more
      (Keeping-gets _ ▸ λ op.
        h ▸ λ right. new_node-Keeping ▸ λ node. binary_loop-Keeping n ops rule _ h)
      (Keeping-pure left)

parse_binary_rule-Keeping :
    (ops : List TokenType) (n : ℕ) (rule : Parser Expr)
    → Keeping rule
    → Keeping (parse_binary_rule ops n rule)
unfolding parse_binary_rule
parse_binary_rule-Keeping ops n rule h = h ▸ λ left. binary_loop-Keeping n ops rule left h

first_byte-Keeping : (bytes : Bytes) → Keeping (first_byte bytes)
unfolding first_byte
first_byte-Keeping [] = record { at = λ s. tt }
first_byte-Keeping (byte ∷ bytes) = record { at = λ s. Kept-refl s }

parse_word-Keeping : Keeping parse_word
unfolding parse_word
parse_word-Keeping = Keeping-gets _ ▸ λ value. Keeping-pure _

literal_value-Keeping : (std : StdLib) → Keeping (literal_value std)
unfolding literal_value
literal_value-Keeping std = search (cases_keep, parse_word-Keeping, first_byte-Keeping) depth 16

parse_literal-Keeping : (std : StdLib) → Keeping (parse_literal std)
unfolding parse_literal
parse_literal-Keeping std = new_node-Keeping ▸ λ node.
    literal_value-Keeping std ▸ λ (value, type). Keeping-gets _ ▸ λ token. Keeping-pure _

module _ (c : Calls) (h : KeepingCalls c) where
  pub expression-Keeping : Keeping (Binary.expression c)
  unfolding Binary.expression parse_and parse_or parse_equality parse_comparison parse_term
      parse_factor parse_exp parse_range
  expression-Keeping = parse_binary_rule-Keeping _ _ _ (
      parse_binary_rule-Keeping _ _ _ (
        parse_binary_rule-Keeping _ _ _ (
          parse_binary_rule-Keeping _ _ _ (
            parse_binary_rule-Keeping _ _ _ (
              parse_binary_rule-Keeping _ _ _ (
                parse_binary_rule-Keeping _ _ _
                  (parse_binary_rule-Keeping _ _ _ h.parse_unary)))))))

  expressions_until-Keeping : (n : ℕ) (end : TokenType) → Keeping (expressions_until c n end)
  unfolding expressions_until
  expressions_until-Keeping zero end = Keeping-exhausted
  expressions_until-Keeping (suc n) end = Keeping-lexing _ ▸ λ ended.
      Keeping-if ended (Keeping-pure _) (
        h.expression ▸ λ e. Keeping-lexing _ ▸ λ more.
        Keeping-if more (expressions_until-Keeping n end ▸ λ es. Keeping-pure _) (Keeping-pure _))

  collect_call_arguments-Keeping : Keeping (collect_call_arguments c)
  unfolding collect_call_arguments
  collect_call_arguments-Keeping = expressions_until-Keeping c.rounds _

  parse_brace_list-Keeping : Keeping (parse_brace_list c)
  unfolding parse_brace_list
  parse_brace_list-Keeping =
      expressions_until-Keeping c.rounds _ ▸ λ es. Keeping-lexing _ ▸ λ _. Keeping-pure es

  array_elements-Keeping : (n : ℕ) → Keeping (array_elements c n)
  unfolding array_elements
  array_elements-Keeping zero = Keeping-exhausted
  array_elements-Keeping (suc n) = h.expression ▸ λ e. Keeping-lexing _ ▸ λ more.
      Keeping-if more (array_elements-Keeping n ▸ λ es. Keeping-pure _) (Keeping-pure _)

  parse_array_literal-Keeping :
      (specifier : Expr) (before : Exprs → Exprs) → Keeping (parse_array_literal c specifier before)
  unfolding parse_array_literal
  parse_array_literal-Keeping specifier before = new_node-Keeping ▸ λ node.
      array_elements-Keeping c.rounds ▸ λ es. Keeping-lexing _ ▸ λ _. Keeping-pure _

  parse_group-Keeping : Keeping (parse_group c)
  unfolding parse_group
  parse_group-Keeping =
      h.expression ▸ λ inner. new_node-Keeping ▸ λ node. Keeping-lexing _ ▸ λ _. Keeping-pure _

  struct_or_symbol-Keeping :
      (name : Bytes) (braced : Bool) → Keeping (struct_or_symbol c name braced)
  unfolding struct_or_symbol
  struct_or_symbol-Keeping name true =
      new_node-Keeping ▸ λ node. parse_brace_list-Keeping ▸ λ es. Keeping-pure _
  struct_or_symbol-Keeping name false = new_node-Keeping ▸ λ node. Keeping-pure _

  parse_identifier-Keeping : Keeping (parse_identifier c)
  unfolding parse_identifier
  parse_identifier-Keeping = Keeping-gets _ ▸ λ name. Keeping-lexing _ ▸ λ is_named.
      Keeping-if is_named (h.expression ▸ λ value. new_node-Keeping ▸ λ node. Keeping-pure _) (
        can_initialize-Keeping ▸ λ allowed.
        Keeping-if allowed (Keeping-lexing _) (Keeping-pure false) ▸ λ braced.
        struct_or_symbol-Keeping name.lexeme braced)

  parse_cast-Keeping : Keeping (parse_cast c)
  unfolding parse_cast
  parse_cast-Keeping = Keeping-lexing _ ▸ λ _. new_node-Keeping ▸ λ node.
      h.parse_type 0 0 false ▸ λ (type, mut_set).
      Keeping-lexing _ ▸ λ _. h.parse_unary ▸ λ target. Keeping-pure _

  parse_ptr_op-Keeping : Keeping (parse_ptr_op c)
  unfolding parse_ptr_op
  parse_ptr_op-Keeping =
      new_node-Keeping ▸ λ node. Keeping-gets _ ▸ λ op. h.parse_primary ▸ λ target. Keeping-pure _

  parse_abs-Keeping : Keeping (parse_abs c)
  unfolding parse_abs
  parse_abs-Keeping =
      h.expression ▸ λ value. new_node-Keeping ▸ λ node. Keeping-lexing _ ▸ λ _. Keeping-pure _

  parse_marked-Keeping : Keeping (parse_marked c)
  unfolding parse_marked
  parse_marked-Keeping =
      search
        (
          cases_keep, parse_brace_list-Keeping, parse_abs-Keeping, parse_ptr_op-Keeping,
          parse_array_literal-Keeping,
        )
        depth 16

  parse_keyword-Keeping : Keeping (parse_keyword c)
  unfolding parse_keyword
  parse_keyword-Keeping = Keeping-lexing _ ▸ λ _. new_node-Keeping ▸ λ node. Keeping-pure _

  of_expression-Keeping :
      (f : Node → Expr → Expr)
      → Keeping (c.expression >>= λ e. new_node >>= λ node. pure (f node e))
  of_expression-Keeping f = h.expression ▸ λ e. new_node-Keeping ▸ λ node. Keeping-pure _

  keyword_or_marked-Keeping : Keeping (
      peek_between TokenType.attribute_keyword_start TokenType.attribute_keyword_end
      >>= λ attribute. if attribute then parse_keyword c else parse_marked c)
  keyword_or_marked-Keeping = peek_between-Keeping _ _ ▸ λ attribute.
      Keeping-if attribute parse_keyword-Keeping parse_marked-Keeping

  parse_primary_inner-Keeping : Keeping (parse_primary_inner c)
  unfolding parse_primary_inner
  parse_primary_inner-Keeping = first_match-cons _ _ _ _ parse_group-Keeping (
      first_match-cons _ _ _ _ parse_identifier-Keeping (
        first_match-cons _ _ _ _ (of_expression-Keeping sizeof_expr) (
          first_match-cons _ _ _ _ (of_expression-Keeping nameof_expr) (
            first_match-cons _ _ _ _ parse_cast-Keeping
              (first_match-nil _ keyword_or_marked-Keeping)))))

  parse_slice-Keeping : (lhs start : Expr) → Keeping (parse_slice c lhs start)
  unfolding parse_slice
  parse_slice-Keeping lhs start = new_node-Keeping ▸ λ node. Keeping-lexing _ ▸ λ open_end.
      Keeping-if open_end (Keeping-pure null_expr) h.expression ▸ λ end.
      Keeping-lexing _ ▸ λ _. Keeping-pure _

  parse_index-Keeping : (lhs index : Expr) → Keeping (parse_index c lhs index)
  unfolding parse_index
  parse_index-Keeping lhs index = new_node-Keeping ▸ λ node. Keeping-lexing _ ▸ λ _. Keeping-pure _

  index_loop-Keeping : (n : ℕ) (inner lhs : Expr) → Keeping (index_loop c n inner lhs)
  unfolding index_loop
  index_loop-Keeping zero inner lhs = Keeping-exhausted
  index_loop-Keeping (suc n) inner lhs = Keeping-lexing _ ▸ λ found. Keeping-if _ (Keeping-pure _) (
      Keeping-lexing _ ▸ λ open_start.
      Keeping-if open_start (Keeping-pure null_expr) h.expression ▸ λ index.
      Keeping-lexing _ ▸ λ is_slice.
      Keeping-if is_slice (parse_slice-Keeping _ index ▸ λ e. index_loop-Keeping n inner e) (
        Keeping-lexing _ ▸ λ is_literal.
        Keeping-if is_literal (parse_array_literal-Keeping _ _ ▸ λ e. Keeping-pure _)
          (parse_index-Keeping _ index ▸ λ e. index_loop-Keeping n inner e)))

  parse_member-Keeping : (target : Expr) → Keeping (parse_member c target)
  unfolding parse_member
  parse_member-Keeping target = new_node-Keeping ▸ λ node.
      Keeping-gets _ ▸ λ is_static. h.parse_primary ▸ λ accessor. Keeping-pure _

  parse_call-Keeping : (callable : Expr) → Keeping (parse_call c callable)
  unfolding parse_call
  parse_call-Keeping callable = collect_call_arguments-Keeping ▸ λ arguments.
      new_node-Keeping ▸ λ node. Keeping-lexing _ ▸ λ _. Keeping-pure _

  parse_suffix-Keeping : (inner : Expr) (end : Indexing) → Keeping (parse_suffix c inner end)
  unfolding parse_suffix
  parse_suffix-Keeping inner (at_literal e) = Keeping-pure e
  parse_suffix-Keeping inner (at_test lhs) = match_one_of-Keeping _ ▸ λ is_member.
      Keeping-if is_member (parse_member-Keeping _)
        (Keeping-lexing _ ▸ λ is_call. Keeping-if is_call (parse_call-Keeping _) (Keeping-pure _))

  indexed-Keeping :
      (inner : Expr) → Keeping (index_loop c c.rounds inner null_expr >>= parse_suffix c inner)
  indexed-Keeping inner = index_loop-Keeping c.rounds inner null_expr ▸ parse_suffix-Keeping inner

  primary_from-Keeping : (std : StdLib) (e : Expr) → Keeping (primary_from c std e)
  unfolding primary_from
  primary_from-Keeping std null_expr = parse_literal-Keeping std
  primary_from-Keeping std e = indexed-Keeping e

  pub parse_primary-Keeping : (std : StdLib) → Keeping (Postfix.parse_primary c std)
  unfolding Postfix.parse_primary
  parse_primary-Keeping std = parse_primary_inner-Keeping ▸ primary_from-Keeping std

  pub parse_unary-Keeping : (std : StdLib) → Keeping (Postfix.parse_unary c std)
  unfolding Postfix.parse_unary
  parse_unary-Keeping std = match_one_of-Keeping _ ▸ λ is_unary.
      Keeping-if is_unary
        (Keeping-gets _ ▸ λ op. h.parse_unary ▸ λ right.
          new_node-Keeping ▸ λ node. first_byte-Keeping op.lexeme ▸ λ char. Keeping-pure _)
        (parse_primary-Keeping std)
