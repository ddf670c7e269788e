-- ===== src/Parser/Ends/Primaries.antt =====
-- The fuel of the functions of src/ast.cpp on primary expressions and the ladder of operators.
use pars_c.Common.{Bool, Bytes, List, [], arith, false, refl, suc, true, zero, ℕ, ◌<◌, ◌∷◌, ◌≤◌}
use pars_c.Token.{TokenType}
use pars_c.Syntax.{Expr, Exprs}
use pars_c.Parser.State.{Calls, Parser, StdLib}
use pars_c.Parser.Binary.{
  binary_loop, parse_and, parse_binary_rule, parse_comparison, parse_equality, parse_exp,
  parse_factor, parse_or, parse_range, parse_term,
}
use pars_c.Parser.Literals.{first_byte, literal_value, parse_literal, parse_word}
use pars_c.Parser.Primary.{
  array_elements, collect_call_arguments, expressions_until, parse_abs, parse_array_literal,
  parse_brace_list, parse_cast, parse_group, parse_identifier, parse_ptr_op, struct_or_symbol,
}
use pars_c.Parser.Ends.{
  Ends, Ends-gets, Ends-if, Ends-pure, Ends-throw, expect-Ends, loosely, match-Ends, peek-Ends,
  peek_is-Ends, takes_any, takes_some, ◌▸◌, ◌▹◌,
}
use pars_c.Parser.Ends.Steps.{
  Costs, Good, can_initialize-Ends, first_match-cons, first_match-nil, found_then,
  match_one_of-Ends, match_then, new_node-Ends,
}
use pars_c.Parser.Binary

-- The loop of `parse_binary_rule` takes a token in each round.
binary_loop-Ends :
    (r w : ℕ) (ops : List TokenType) (rule : Parser Expr) (left : Expr)
    → w < r
    → Costs ops
    → ((v : ℕ) → v < w → Ends takes_some v rule)
    → Ends takes_any w (binary_loop r ops rule left)
unfolding binary_loop
binary_loop-Ends zero w ops rule left lt e h = absurd (omega arith)
binary_loop-Ends (suc r) w ops rule left lt e h =
    found_then _ (match_one_of-Ends ops e)
      (λ v lower. Ends-gets _ ▸ λ op. h v lower ▸ λ right. new_node-Ends ▸ λ node.
        binary_loop-Ends r v ops rule _ (omega arith) e (λ u below. h u (omega arith)))
      (Ends-pure _)

-- A rule that takes a token at every weight that is not above `w`.
abbrev Rule : ℕ → Parser Expr → Type 0
Rule w rule = (v : ℕ) → v ≤ w → Ends takes_some v rule

parse_binary_rule-Ends :
    (w r : ℕ) (ops : List TokenType) (rule : Parser Expr)
    → w ≤ r
    → Costs ops
    → Rule w rule
    → Rule w (parse_binary_rule ops r rule)
unfolding parse_binary_rule
parse_binary_rule-Ends w r ops rule le e h v at_most = h v at_most ▹ λ left u lt.
    binary_loop-Ends r u ops rule left (omega arith) e (λ t lower. h t (omega arith))

pub expression-Ends :
    (c : Calls) (w : ℕ) → w ≤ c.rounds → Rule w c.parse_unary → Rule w (Binary.expression c)
unfolding Binary.expression parse_and parse_or parse_equality parse_comparison parse_term
    parse_factor parse_exp parse_range
expression-Ends c w le h =
    parse_binary_rule-Ends w _ _ _ le (refl, tt)
      (parse_binary_rule-Ends w _ _ _ le (refl, tt)
        (parse_binary_rule-Ends w _ _ _ le (refl, (refl, tt))
          (parse_binary_rule-Ends w _ _ _ le (refl, (refl, (refl, (refl, tt))))
            (parse_binary_rule-Ends w _ _ _ le (refl, (refl, tt))
              (parse_binary_rule-Ends w _ _ _ le (refl, (refl, (refl, tt)))
                (parse_binary_rule-Ends w _ _ _ le (refl, tt)
                  (parse_binary_rule-Ends w _ _ _ le (refl, (refl, tt)) h)))))))

pub first_byte-Ends : {w : ℕ} (bytes : Bytes) → Ends takes_any w (first_byte bytes)
unfolding first_byte
first_byte-Ends [] = record { at = λ s h. tt }
first_byte-Ends (byte ∷ bytes) = record { at = λ s h. h }

parse_word-Ends : {w : ℕ} → Ends takes_any w parse_word
unfolding parse_word
parse_word-Ends = Ends-gets _ ▸ λ value. Ends-pure _

literal_value-Ends : {w : ℕ} (std : StdLib) → Ends takes_some w (literal_value std)
unfolding literal_value
literal_value-Ends std =
    first_match-cons _ _ _ _ refl (λ v lt. parse_word-Ends)
      (first_match-cons _ _ _ _ refl (λ v lt. parse_word-Ends)
        (first_match-cons _ _ _ _ refl (λ v lt. Ends-gets _ ▸ λ token. Ends-pure _)
          (first_match-cons _ _ _ _ refl (λ v lt. Ends-gets _ ▸ λ token. Ends-pure _)
            (first_match-cons _ _ _ _ refl (λ v lt. Ends-gets _ ▸ λ token. Ends-pure _)
              (first_match-cons _ _ _ _ refl
                (λ v lt. Ends-gets _ ▸ λ token. first_byte-Ends _ ▸ λ byte. Ends-pure _)
                (first_match-cons _ _ _ _ refl (λ v lt. Ends-pure _)
                  (first_match-nil _
                    (Ends-gets _ ▸ λ last. peek-Ends ▸ λ current. Ends-throw _ _ _))))))))

pub parse_literal-Ends : {w : ℕ} (std : StdLib) → Ends takes_some w (parse_literal std)
unfolding parse_literal
parse_literal-Ends std = new_node-Ends ▸ λ node.
    literal_value-Ends std ▹ λ (value, type) v lt. Ends-gets _ ▸ λ token. Ends-pure _

module _ (c : Calls) (n : ℕ) (g : Good n c) where
  expressions_until-Ends :
      (r w : ℕ) (end : TokenType) → w < r → w < n → Ends takes_any w (expressions_until c r end)
  unfolding expressions_until
  expressions_until-Ends zero w end lt below = absurd (omega arith)
  expressions_until-Ends (suc r) w end lt below = peek_is-Ends end ▸ λ ended.
      Ends-if ended (Ends-pure _) (
        g.expression w below ▹ λ e v lower.
        match_then TokenType.comma _ refl
          (λ u lower'.
            expressions_until-Ends r u end (omega arith) (omega arith) ▸ λ es. Ends-pure _)
          (Ends-pure _))

  pub collect_call_arguments-Ends : (w : ℕ) → w < n → Ends takes_any w (collect_call_arguments c)
  unfolding collect_call_arguments
  collect_call_arguments-Ends w lt =
      let enough = g.rounds in expressions_until-Ends c.rounds w _ (omega arith) lt

  pub parse_brace_list-Ends : (w : ℕ) → w < n → Ends takes_any w (parse_brace_list c)
  unfolding parse_brace_list
  parse_brace_list-Ends w lt =
      let enough = g.rounds in
      expressions_until-Ends c.rounds w _ (omega arith) lt ▸ λ es.
      expect-Ends TokenType.right_brace refl ▸ λ _. Ends-pure _

  array_elements-Ends : (r w : ℕ) → w < r → w < n → Ends takes_any w (array_elements c r)
  unfolding array_elements
  array_elements-Ends zero w lt below = absurd (omega arith)
  array_elements-Ends (suc r) w lt below = g.expression w below ▹ λ e v lower.
      match_then TokenType.comma _ refl
        (λ u lower'. array_elements-Ends r u (omega arith) (omega arith) ▸ λ es. Ends-pure _)
        (Ends-pure _)

  pub parse_array_literal-Ends :
      (w : ℕ) (specifier : Expr) (before : Exprs → Exprs)
      → w < n
      → Ends takes_any w (parse_array_literal c specifier before)
  unfolding parse_array_literal
  parse_array_literal-Ends w specifier before lt =
      let enough = g.rounds in
      new_node-Ends ▸ λ node. array_elements-Ends c.rounds w (omega arith) lt ▸ λ es.
      expect-Ends TokenType.right_bracket refl ▸ λ _. Ends-pure _

  pub parse_group-Ends : (w : ℕ) → w < n → Ends takes_any w (parse_group c)
  unfolding parse_group
  parse_group-Ends w lt = g.expression w lt ▸ λ inner.
      new_node-Ends ▸ λ node. expect-Ends TokenType.right_paren refl ▸ λ _. Ends-pure _

  struct_or_symbol-Ends :
      (w : ℕ) (name : Bytes) (braced : Bool)
      → w < n
      → Ends takes_any w (struct_or_symbol c name braced)
  unfolding struct_or_symbol
  struct_or_symbol-Ends w name true lt =
      new_node-Ends ▸ λ node. parse_brace_list-Ends w lt ▸ λ es. Ends-pure _
  struct_or_symbol-Ends w name false lt = new_node-Ends ▸ λ node. Ends-pure _

  pub parse_identifier-Ends : (w : ℕ) → w < n → Ends takes_any w (parse_identifier c)
  unfolding parse_identifier
  parse_identifier-Ends w lt = Ends-gets _ ▸ λ identifier.
      match-Ends TokenType.colon refl ▸ λ is_named.
      Ends-if is_named (g.expression w lt ▸ λ value. new_node-Ends ▸ λ node. Ends-pure _) (
        can_initialize-Ends ▸ λ allowed.
        Ends-if allowed (loosely (match-Ends TokenType.left_brace refl)) (Ends-pure false)
        ▸ λ braced. struct_or_symbol-Ends w _ braced lt)

  pub parse_cast-Ends : (w : ℕ) → w < n → Ends takes_any w (parse_cast c)
  unfolding parse_cast
  parse_cast-Ends w lt = expect-Ends TokenType.left_paren refl ▸ λ _. new_node-Ends ▸ λ node.
      g.parse_type w lt 0 0 false ▸ λ (type, mut_set).
      expect-Ends TokenType.right_paren refl ▸ λ _. g.parse_unary w lt ▸ λ target. Ends-pure _

  pub parse_ptr_op-Ends : (w : ℕ) → w < n → Ends takes_any w (parse_ptr_op c)
  unfolding parse_ptr_op
  parse_ptr_op-Ends w lt =
      new_node-Ends ▸ λ node. Ends-gets _ ▸ λ op. g.parse_primary w lt ▸ λ target. Ends-pure _

  pub parse_abs-Ends : (w : ℕ) → w < n → Ends takes_any w (parse_abs c)
  unfolding parse_abs
  parse_abs-Ends w lt = g.expression w lt ▸ λ value.
      new_node-Ends ▸ λ node. expect-Ends TokenType.pipe refl ▸ λ _. Ends-pure _
