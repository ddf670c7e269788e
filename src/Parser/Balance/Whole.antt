-- ===== src/Parser/Balance/Whole.antt =====
-- The stacks and the attributes under the statements and under `parse` of src/ast.cpp.
use pars_c.Common.{Bool, Bytes, Option, false, none, refl, some, suc, true, zero, ℕ, ◌*◌, ◌<◌}
use pars_c.Syntax.{AnyNode, Expr, Ty, no_vars}
use pars_c.Parser.State.{Ast, Calls, Parser, StdLib}
use pars_c.Parser.Statements.{
  binding_loop, comp_if_stmt, declaration, declaration_behind, discard_attributes,
  expression_statement, imported_symbol, parse_alias_name, parse_assignment, parse_binding,
  parse_condition, parse_else, parse_for, parse_if, parse_import, parse_loop, parse_return,
  parse_selection, parse_while, path_loop, return_from, return_value, selection_loop, statement,
  statement_behind, var_or_statement,
}
use pars_c.Parser.Knot.{calls_with, parse, parse_loop_nodes}
use pars_c.Parser.Ends.Fuel.{Settles, parse-EndsBy, settles}
use pars_c.Parser.Balance.{
  Keeping, Keeping-exhausted, Keeping-gets, Keeping-if, Keeping-lexing, Keeping-pure, Keeping-throw,
  Kept, Kept-same, KeptBy, first_match-cons, first_match-nil, get_current_fn-Keeping,
  match_one_of-Keeping, new_node-Keeping, peek_between-Keeping, with_initialize-Keeping, ◌▸◌,
}
use pars_c.Parser.Balance.Names.{collect_attributes-Keeping}
use pars_c.Parser.Balance.Primaries.{
  KeepingCalls, expression-Keeping, parse_primary-Keeping, parse_unary-Keeping,
}
use pars_c.Parser.Balance.Typings.{parse_struct-Keeping, parse_type-Keeping}
use pars_c.Parser.Balance.Declared.{
  modified-Keeping, parse_alias-Keeping, parse_block-Keeping, parse_enum-Keeping, parse_fn-Keeping,
  parse_impl-Keeping, parse_var-Keeping,
}
use mathlib.Core.Path.{subst}
use pars_c.Lexer.Progress.Weights.{IsSmall, weight}
use pars_c.Parser.Statements

parse_binding-Keeping : Keeping parse_binding
unfolding parse_binding
parse_binding-Keeping = new_node-Keeping ▸ λ node. Keeping-gets _ ▸ λ token. Keeping-pure _

binding_loop-Keeping : (n : ℕ) → Keeping (binding_loop n)
unfolding binding_loop
binding_loop-Keeping zero = Keeping-exhausted
binding_loop-Keeping (suc n) = Keeping-lexing _ ▸ λ found.
    Keeping-if found
      (parse_binding-Keeping ▸ λ var. Keeping-lexing _ ▸ λ more.
        Keeping-if more (binding_loop-Keeping n ▸ λ vars. Keeping-pure _) (Keeping-pure _))
      (Keeping-pure _)

path_loop-Keeping : (n : ℕ) → Keeping (path_loop n)
unfolding path_loop
path_loop-Keeping zero = Keeping-exhausted
path_loop-Keeping (suc n) = Keeping-lexing _ ▸ λ found.
    Keeping-if found
      (Keeping-gets _ ▸ λ token. Keeping-lexing _ ▸ λ more.
        Keeping-if more (path_loop-Keeping n ▸ λ names. Keeping-pure _) (Keeping-pure _))
      (Keeping-pure _)

imported_symbol-Keeping : (name : Bytes) (renamed : Bool) → Keeping (imported_symbol name renamed)
unfolding imported_symbol
imported_symbol-Keeping name false = Keeping-pure _
imported_symbol-Keeping name true = Keeping-lexing _ ▸ λ token. Keeping-pure _

selection_loop-Keeping : (n : ℕ) → Keeping (selection_loop n)
unfolding selection_loop
selection_loop-Keeping zero = Keeping-exhausted
selection_loop-Keeping (suc n) = Keeping-lexing _ ▸ λ found.
    Keeping-if found
      (Keeping-gets _ ▸ λ token. Keeping-lexing _ ▸ λ renamed.
        imported_symbol-Keeping token.lexeme renamed ▸ λ item. Keeping-lexing _ ▸ λ more.
        Keeping-if more (selection_loop-Keeping n ▸ λ items. Keeping-pure _) (Keeping-pure _))
      (Keeping-pure _)

parse_alias_name-Keeping : (has_alias : Bool) → Keeping (parse_alias_name has_alias)
unfolding parse_alias_name
parse_alias_name-Keeping false = Keeping-pure _
parse_alias_name-Keeping true = Keeping-gets _ ▸ λ token. Keeping-lexing _ ▸ λ _. Keeping-pure _

parse_selection-Keeping : (n : ℕ) (selective : Bool) → Keeping (parse_selection n selective)
unfolding parse_selection
parse_selection-Keeping n false = Keeping-pure _
parse_selection-Keeping n true = selection_loop-Keeping n

discard_attributes-Keeping : Keeping discard_attributes
unfolding discard_attributes
discard_attributes-Keeping = modified-Keeping _ (λ s. Kept-same s _ refl refl refl refl)

return_value-Keeping :
    (value : Parser Expr) (void : Bool) → Keeping value → Keeping (return_value value void)
unfolding return_value
return_value-Keeping value true h = Keeping-pure _
return_value-Keeping value false h = h

module _ (c : Calls) (h : KeepingCalls c) where
  parse_import-Keeping : Keeping (parse_import c)
  unfolding parse_import
  parse_import-Keeping = new_node-Keeping ▸ λ node. Keeping-lexing _ ▸ λ has_alias.
      parse_alias_name-Keeping has_alias ▸ λ name. path_loop-Keeping c.rounds ▸ λ path.
      Keeping-lexing _ ▸ λ selective.
      parse_selection-Keeping c.rounds selective ▸ λ selection. Keeping-pure _

  parse_condition-Keeping : Keeping (parse_condition c)
  unfolding parse_condition
  parse_condition-Keeping = with_initialize-Keeping _ h.expression false

  parse_else-Keeping : (has_else : Bool) → Keeping (parse_else c has_else)
  unfolding parse_else
  parse_else-Keeping false = Keeping-pure _
  parse_else-Keeping true = Keeping-lexing _ ▸ λ nested.
      Keeping-if nested h.parse_if
        (Keeping-lexing _ ▸ λ _. parse_block-Keeping c h ▸ λ body. Keeping-pure _)

  parse_if-Keeping : Keeping (Statements.parse_if c)
  unfolding Statements.parse_if
  parse_if-Keeping = new_node-Keeping ▸ λ node. parse_condition-Keeping ▸ λ condition.
      Keeping-lexing _ ▸ λ _. parse_block-Keeping c h ▸ λ body.
      Keeping-lexing _ ▸ λ has_else. parse_else-Keeping has_else ▸ λ else_br. Keeping-pure _

  parse_while-Keeping : (condition : Expr) → Keeping (parse_while c condition)
  unfolding parse_while
  parse_while-Keeping condition = new_node-Keeping ▸ λ node.
      Keeping-lexing _ ▸ λ _. parse_block-Keeping c h ▸ λ body. Keeping-pure _

  parse_loop-Keeping : Keeping (parse_loop c)
  unfolding parse_loop
  parse_loop-Keeping = new_node-Keeping ▸ λ node. parse_while-Keeping _

  parse_for-Keeping : Keeping (parse_for c)
  unfolding parse_for
  parse_for-Keeping = new_node-Keeping ▸ λ node. binding_loop-Keeping c.rounds ▸ λ bindings.
      Keeping-lexing _ ▸ λ _. parse_condition-Keeping ▸ λ iterable.
      Keeping-lexing _ ▸ λ _. parse_block-Keeping c h ▸ λ body. Keeping-pure _

  return_from-Keeping : (fn : Option Ty) → Keeping (return_from c fn)
  unfolding return_from
  return_from-Keeping none = Keeping-gets _ ▸ λ token. Keeping-throw _ _
  return_from-Keeping (some type) =
      new_node-Keeping ▸ λ node. return_value-Keeping _ _ h.expression ▸ λ value. Keeping-pure _

  parse_return-Keeping : Keeping (parse_return c)
  unfolding parse_return
  parse_return-Keeping = get_current_fn-Keeping ▸ return_from-Keeping

  parse_assignment-Keeping : (lhs : Expr) → Keeping (parse_assignment c lhs)
  unfolding parse_assignment
  parse_assignment-Keeping lhs = new_node-Keeping ▸ λ node.
      Keeping-lexing _ ▸ λ _. Keeping-gets _ ▸ λ op. h.expression ▸ λ rhs. Keeping-pure _

  expression_statement-Keeping : (std : StdLib) → Keeping (expression_statement c std)
  unfolding expression_statement
  expression_statement-Keeping std = parse_primary-Keeping c h std ▸ λ e.
      peek_between-Keeping _ _ ▸ λ assigning.
      Keeping-if assigning (parse_assignment-Keeping e) (Keeping-pure _)

  comp_if_stmt-Keeping : Keeping (comp_if_stmt c)
  unfolding comp_if_stmt
  comp_if_stmt-Keeping = new_node-Keeping ▸ λ node. parse_if-Keeping ▸ λ stmt. Keeping-pure _

  statement_behind-Keeping : (std : StdLib) → Keeping (statement_behind c std)
  unfolding statement_behind
  statement_behind-Keeping std = first_match-cons _ _ _ _ parse_import-Keeping (
      first_match-cons _ _ _ _ (parse_condition-Keeping ▸ parse_while-Keeping) (
        first_match-cons _ _ _ _ parse_loop-Keeping (
          first_match-cons _ _ _ _ (new_node-Keeping ▸ λ node. Keeping-pure _) (
            first_match-cons _ _ _ _ (new_node-Keeping ▸ λ node. Keeping-pure _) (
              first_match-cons _ _ _ _ parse_for-Keeping (
                first_match-cons _ _ _ _ (parse_block-Keeping c h ▸ λ body. Keeping-pure _) (
                  first_match-cons _ _ _ _ parse_return-Keeping
                    (first_match-nil _ (expression_statement-Keeping std)))))))))

  statement-Keeping : (std : StdLib) → Keeping (statement c std)
  unfolding statement
  statement-Keeping std = first_match-cons _ _ _ _ parse_if-Keeping (
      first_match-nil _ (
        Keeping-lexing _ ▸ λ is_comp.
        Keeping-if is_comp comp_if_stmt-Keeping (statement_behind-Keeping std)))

  var_or_statement-Keeping :
      (std : StdLib) (is_var : Bool) → Keeping (var_or_statement c std is_var)
  unfolding var_or_statement
  var_or_statement-Keeping std true = parse_var-Keeping c h ▸ λ var. Keeping-pure _
  var_or_statement-Keeping std false =
      first_match-cons _ _ _ _ (parse_alias-Keeping c h ▸ λ type. Keeping-pure _)
        (first_match-nil _ (discard_attributes-Keeping ▸ λ _. statement-Keeping std))

  declaration_behind-Keeping : (std : StdLib) → Keeping (declaration_behind c std)
  unfolding declaration_behind
  declaration_behind-Keeping std =
      first_match-cons _ _ _ _ (parse_fn-Keeping c h no_vars ▸ λ type. Keeping-pure _) (
        first_match-cons _ _ _ _ (parse_struct-Keeping c h false ▸ λ type. Keeping-pure _) (
          first_match-cons _ _ _ _ (parse_impl-Keeping c h) (
            first_match-cons _ _ _ _ (parse_enum-Keeping c h std ▸ λ type. Keeping-pure _)
              (first_match-nil _ (match_one_of-Keeping _ ▸ var_or_statement-Keeping std)))))

  declaration-Keeping : (std : StdLib) → Keeping (Statements.declaration c std)
  unfolding Statements.declaration
  declaration-Keeping std = collect_attributes-Keeping c ▸ λ _. declaration_behind-Keeping std

calls_with-Keeping : (std : StdLib) (n : ℕ) → KeepingCalls (calls_with std n)
unfolding calls_with
calls_with-Keeping std zero = record {
  expression = Keeping-exhausted;
  parse_unary = Keeping-exhausted;
  parse_primary = Keeping-exhausted;
  parse_type = λ mut_set position imut_override. Keeping-exhausted;
  declaration = Keeping-exhausted;
  parse_if = Keeping-exhausted;
}
calls_with-Keeping std (suc n) =
    let c = calls_with std n in
    let h = calls_with-Keeping std n in
    record {
      expression = expression-Keeping c h;
      parse_unary = parse_unary-Keeping c h std;
      parse_primary = parse_primary-Keeping c h std;
      parse_type = parse_type-Keeping c h;
      declaration = declaration-Keeping c h std;
      parse_if = parse_if-Keeping c h;
    }

parse_loop_nodes-Keeping :
    (n : ℕ) (node : Parser AnyNode) → Keeping node → Keeping (parse_loop_nodes n node)
unfolding parse_loop_nodes
parse_loop_nodes-Keeping zero node h = Keeping-exhausted
parse_loop_nodes-Keeping (suc n) node h = Keeping-gets _ ▸ λ more. Keeping-if _ (Keeping-pure _) (
    Keeping-lexing _ ▸ λ ended.
    Keeping-if ended (Keeping-pure _)
      (h ▸ λ first. parse_loop_nodes-Keeping n node h ▸ λ nodes. Keeping-pure _))

parse-Keeping : (std : StdLib) (fuel : ℕ) → Keeping (parse std fuel)
unfolding parse
parse-Keeping std fuel = modified-Keeping _ (λ s. Kept-same s _ refl refl refl refl) ▸ λ _.
    parse_loop_nodes-Keeping fuel _
      (declaration-Keeping (calls_with std fuel) (calls_with-Keeping std fuel) std)
    ▸ λ nodes. modified-Keeping _ (λ s. Kept-same s _ refl refl refl refl) ▸ λ _. Keeping-pure _

-- In a text of less than 2^32 bytes, with fuel for more than twice the weight of the lexer (the bytes
-- that are left, and the tokens read ahead), the parser does not run out of fuel; and if it returns,
-- both of its stacks are as they were, no fewer nodes have been made, and the attributes that were
-- set before still stand at the front of the global list.
pub parse-Kept :
    (std : StdLib) (fuel : ℕ) (s : Ast)
    → IsSmall s.lexer
    → 2 * weight s.lexer < fuel
    → Settles (λ nodes s'. Kept s s') (parse std fuel s)
parse-Kept std fuel s small enough =
    settles (weight s.lexer) _ _ _ (parse-EndsBy std fuel s small enough)
      λ nodes s' e. subst (KeptBy s) e ((parse-Keeping std fuel).at s)
