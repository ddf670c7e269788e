-- ===== src/Parser/Ends/Whole.antt =====
-- The fuel of the functions of src/ast.cpp on statements and declarations.
use pars_c.Common.{
  Bool, Bytes, Option, [], arith, false, none, refl, some, suc, true, zero, ℕ, ◌<◌, ◌∷◌, ◌≤◌,
}
use pars_c.Token.{TokenType}
use pars_c.Syntax.{Expr, Ty, is_void, no_vars, null_expr, null_node}
use pars_c.Parser.State.{Calls, Parser, StdLib}
use pars_c.Parser.Statements.{
  binding_loop, comp_if_stmt, declaration_behind, discard_attributes, expression_statement,
  imported_symbol, parse_alias_name, parse_assignment, parse_binding, parse_condition, parse_else,
  parse_for, parse_import, parse_loop, parse_return, parse_selection, parse_while, path_loop,
  return_from, return_value, selection_loop, statement, statement_behind, var_or_statement,
}
use pars_c.Parser.Ends.{
  Ends, Ends-gets, Ends-if, Ends-pure, Ends-throw, advance-Ends, expect-Ends, loosely, match-Ends,
  match_both-Ends, match_next-Ends, takes_any, takes_some, ◌▸◌, ◌▹◌,
}
use pars_c.Parser.Ends.Steps.{
  Good, first_match-cons, first_match-nil, found_then, get_current_fn-Ends, match_one_of-Ends,
  match_then, modify-Ends, new_node-Ends, peek_between-Ends, with_initialize-Ends,
}
use pars_c.Parser.Ends.Names.{collect_attributes-Ends}
use pars_c.Parser.Ends.Suffixes.{parse_primary-Ends}
use pars_c.Parser.Ends.Typings.{parse_struct-Ends}
use pars_c.Parser.Ends.Declared.{
  parse_alias-Ends, parse_block-Ends, parse_enum-Ends, parse_fn-Ends, parse_impl-Ends,
  parse_var-Ends,
}
use pars_c.Parser.Statements

parse_binding-Ends : {w : ℕ} → Ends takes_any w parse_binding
unfolding parse_binding
parse_binding-Ends = new_node-Ends ▸ λ node. Ends-gets _ ▸ λ token. Ends-pure _

binding_loop-Ends : (r w : ℕ) → w < r → Ends takes_any w (binding_loop r)
unfolding binding_loop
binding_loop-Ends zero w lt = absurd (omega arith)
binding_loop-Ends (suc r) w lt =
    match_then TokenType.identifier _ refl
      (λ v lower. parse_binding-Ends ▸ λ var.
        match_then TokenType.comma _ refl
          (λ u below. binding_loop-Ends r u (omega arith) ▸ λ vars. Ends-pure _) (Ends-pure _))
      (Ends-pure no_vars)

path_loop-Ends : (r w : ℕ) → w < r → Ends takes_any w (path_loop r)
unfolding path_loop
path_loop-Ends zero w lt = absurd (omega arith)
path_loop-Ends (suc r) w lt =
    match_then TokenType.identifier _ refl
      (λ v lower. Ends-gets _ ▸ λ token.
        match_then TokenType.dot _ refl
          (λ u below. path_loop-Ends r u (omega arith) ▸ λ names. Ends-pure _) (Ends-pure _))
      (Ends-pure [])

imported_symbol-Ends :
    {w : ℕ} (name : Bytes) (renamed : Bool) → Ends takes_any w (imported_symbol name renamed)
unfolding imported_symbol
imported_symbol-Ends name false = Ends-pure _
imported_symbol-Ends name true = expect-Ends TokenType.identifier refl ▸ λ token. Ends-pure _

selection_loop-Ends : (r w : ℕ) → w < r → Ends takes_any w (selection_loop r)
unfolding selection_loop
selection_loop-Ends zero w lt = absurd (omega arith)
selection_loop-Ends (suc r) w lt =
    match_then TokenType.identifier _ refl
      (λ v lower. Ends-gets _ ▸ λ token. match-Ends TokenType.equal refl ▸ λ renamed.
        imported_symbol-Ends token.lexeme renamed ▸ λ item.
        match_then TokenType.comma _ refl
          (λ u below. selection_loop-Ends r u (omega arith) ▸ λ items. Ends-pure _) (Ends-pure _))
      (Ends-pure [])

parse_alias_name-Ends : {w : ℕ} (has_alias : Bool) → Ends takes_any w (parse_alias_name has_alias)
unfolding parse_alias_name
parse_alias_name-Ends false = Ends-pure []
parse_alias_name-Ends true = Ends-gets _ ▸ λ token. advance-Ends ▸ λ _. Ends-pure _

parse_selection-Ends :
    (r w : ℕ) (selective : Bool) → w < r → Ends takes_any w (parse_selection r selective)
unfolding parse_selection
parse_selection-Ends r w false lt = Ends-pure []
parse_selection-Ends r w true lt = selection_loop-Ends r w lt

return_value-Ends :
    {w : ℕ} {takes : Expr → Bool} (value : Parser Expr) (void : Bool)
    → Ends takes w value
    → Ends takes_any w (return_value value void)
unfolding return_value
return_value-Ends value true h = Ends-pure null_expr
return_value-Ends value false h = loosely h

discard_attributes-Ends : {w : ℕ} → Ends takes_any w discard_attributes
unfolding discard_attributes
discard_attributes-Ends = modify-Ends _ (λ s. refl)

module _ (c : Calls) (n : ℕ) (g : Good n c) where
  parse_import-Ends : (w : ℕ) → w < n → Ends takes_any w (parse_import c)
  unfolding parse_import
  parse_import-Ends w lt =
      let enough = g.rounds in
      new_node-Ends ▸ λ node. match_next-Ends TokenType.equal ▸ λ has_alias.
      parse_alias_name-Ends has_alias ▸ λ name. path_loop-Ends c.rounds w (omega arith) ▸ λ path.
      match-Ends TokenType.colon refl ▸ λ selective.
      parse_selection-Ends c.rounds w selective (omega arith) ▸ λ selection. Ends-pure _

  parse_condition-Ends : (w : ℕ) → w < n → Ends takes_any w (parse_condition c)
  unfolding parse_condition
  parse_condition-Ends w lt = with_initialize-Ends false (g.expression w lt)

  parse_else-Ends : (w : ℕ) (has_else : Bool) → w < n → Ends takes_any w (parse_else c has_else)
  unfolding parse_else
  parse_else-Ends w false lt = Ends-pure null_node
  parse_else-Ends w true lt =
      match_then TokenType.if_kw _ refl (λ v lower. g.parse_if v (omega arith))
        (expect-Ends TokenType.left_brace refl ▸ λ _.
          parse_block-Ends c n g w lt ▸ λ body. Ends-pure _)

  pub parse_if-Ends : (w : ℕ) → w < n → Ends takes_any w (Statements.parse_if c)
  unfolding Statements.parse_if
  parse_if-Ends w lt = new_node-Ends ▸ λ node. parse_condition-Ends w lt ▸ λ condition.
      expect-Ends TokenType.left_brace refl ▸ λ _. parse_block-Ends c n g w lt ▸ λ body.
      match-Ends TokenType.else_kw refl ▸ λ has_else.
      parse_else-Ends w has_else lt ▸ λ else_br. Ends-pure _

  parse_while-Ends : (w : ℕ) (condition : Expr) → w < n → Ends takes_any w (parse_while c condition)
  unfolding parse_while
  parse_while-Ends w condition lt = new_node-Ends ▸ λ node.
      expect-Ends TokenType.left_brace refl ▸ λ _. parse_block-Ends c n g w lt ▸ λ body. Ends-pure _

  parse_loop-Ends : (w : ℕ) → w < n → Ends takes_any w (parse_loop c)
  unfolding parse_loop
  parse_loop-Ends w lt = new_node-Ends ▸ λ node. parse_while-Ends w _ lt

  parse_for-Ends : (w : ℕ) → w < n → Ends takes_any w (parse_for c)
  unfolding parse_for
  parse_for-Ends w lt =
      let enough = g.rounds in
      new_node-Ends ▸ λ node. binding_loop-Ends c.rounds w (omega arith) ▸ λ bindings.
      expect-Ends TokenType.in_kw refl ▸ λ _. parse_condition-Ends w lt ▸ λ iterable.
      expect-Ends TokenType.left_brace refl ▸ λ _. parse_block-Ends c n g w lt ▸ λ body. Ends-pure _

  return_from-Ends :
      (w : ℕ) (current : Option Ty) → w < n → Ends takes_any w (return_from c current)
  unfolding return_from
  return_from-Ends w none lt = Ends-gets _ ▸ λ token. Ends-throw _ _ _
  return_from-Ends w (some type) lt = new_node-Ends ▸ λ node.
      return_value-Ends _ (is_void type) (g.expression w lt) ▸ λ value. Ends-pure _

  parse_return-Ends : (w : ℕ) → w < n → Ends takes_any w (parse_return c)
  unfolding parse_return
  parse_return-Ends w lt = get_current_fn-Ends ▸ λ current. return_from-Ends w current lt

  parse_assignment-Ends : (w : ℕ) (lhs : Expr) → w < n → Ends takes_any w (parse_assignment c lhs)
  unfolding parse_assignment
  parse_assignment-Ends w lhs lt = new_node-Ends ▸ λ node.
      advance-Ends ▸ λ _. Ends-gets _ ▸ λ op. g.expression w lt ▸ λ rhs. Ends-pure _

  expression_statement-Ends :
      (w : ℕ) (std : StdLib) → w ≤ n → Ends takes_some w (expression_statement c std)
  unfolding expression_statement
  expression_statement-Ends w std le = parse_primary-Ends c n g w std le ▹ λ e v lower.
      peek_between-Ends _ _ ▸ λ assigning.
      Ends-if assigning (parse_assignment-Ends v e (omega arith)) (Ends-pure _)

  comp_if_stmt-Ends : (w : ℕ) → w < n → Ends takes_any w (comp_if_stmt c)
  unfolding comp_if_stmt
  comp_if_stmt-Ends w lt = new_node-Ends ▸ λ node. parse_if-Ends w lt ▸ λ stmt. Ends-pure _

  statement_behind-Ends :
      (w : ℕ) (std : StdLib) → w ≤ n → Ends takes_some w (statement_behind c std)
  unfolding statement_behind
  statement_behind-Ends w std le =
      first_match-cons _ _ _ _ refl (λ v lt. parse_import-Ends v (omega arith))
        (first_match-cons _ _ _ _ refl
          (λ v lt. parse_condition-Ends v (omega arith) ▸ λ condition.
            parse_while-Ends v condition (omega arith))
          (first_match-cons _ _ _ _ refl (λ v lt. parse_loop-Ends v (omega arith))
            (first_match-cons _ _ _ _ refl (λ v lt. new_node-Ends ▸ λ node. Ends-pure _)
              (first_match-cons _ _ _ _ refl (λ v lt. new_node-Ends ▸ λ node. Ends-pure _)
                (first_match-cons _ _ _ _ refl (λ v lt. parse_for-Ends v (omega arith))
                  (first_match-cons _ _ _ _ refl
                    (λ v lt. parse_block-Ends c n g v (omega arith) ▸ λ body. Ends-pure _)
                    (first_match-cons _ _ _ _ refl (λ v lt. parse_return-Ends v (omega arith))
                      (first_match-nil _ (expression_statement-Ends w std le)))))))))

  statement-Ends : (w : ℕ) (std : StdLib) → w ≤ n → Ends takes_some w (statement c std)
  unfolding statement
  statement-Ends w std le =
      first_match-cons _ _ _ _ refl (λ v lt. parse_if-Ends v (omega arith))
        (first_match-nil _ (
          found_then _ (match_both-Ends TokenType.dollar TokenType.if_kw refl)
            (λ v lt. comp_if_stmt-Ends v (omega arith)) (statement_behind-Ends w std le)))

  declaration_behind-Ends :
      (w : ℕ) (std : StdLib) → w ≤ n → Ends takes_some w (declaration_behind c std)
  unfolding declaration_behind var_or_statement
  declaration_behind-Ends w std le =
      first_match-cons _ _ _ _ refl
        (λ v lt. parse_fn-Ends c n g v no_vars (omega arith) ▸ λ type. Ends-pure _)
        (first_match-cons _ _ _ _ refl
          (λ v lt. parse_struct-Ends c n g v false (omega arith) ▸ λ type. Ends-pure _)
          (first_match-cons _ _ _ _ refl (λ v lt. parse_impl-Ends c n g v (omega arith))
            (first_match-cons _ _ _ _ refl
              (λ v lt. parse_enum-Ends c n g v std (omega arith) ▸ λ type. Ends-pure _)
              (first_match-nil _ (
                found_then _
                  (match_one_of-Ends (TokenType.var_kw ∷ TokenType.let_kw ∷ TokenType.const_kw ∷ [])
                    (refl, (refl, (refl, tt))))
                  (λ v lt. parse_var-Ends c n g v (omega arith) ▸ λ var. Ends-pure _)
                  (first_match-cons _ _ _ _ refl
                    (λ v lt. parse_alias-Ends c n g v (omega arith) ▸ λ type. Ends-pure _)
                    (first_match-nil _
                      (discard_attributes-Ends ▸ λ _. statement-Ends w std le))))))))

  pub declaration-Ends :
      (w : ℕ) (std : StdLib) → w ≤ n → Ends takes_some w (Statements.declaration c std)
  unfolding Statements.declaration
  declaration-Ends w std le =
      let enough = g.rounds in
      collect_attributes-Ends c w (omega arith) ▸ λ _. declaration_behind-Ends w std le
