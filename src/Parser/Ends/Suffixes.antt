-- ===== src/Parser/Ends/Suffixes.antt =====
-- The fuel of primary expressions with what follows them, in src/ast.cpp.
use pars_c.Common.{
  Bool, Bool-cases, [], ap, arith, false, inl, inr, refl, some, suc, sym, true, zero, ℕ, ◌<◌, ◌∙◌,
  ◌∷◌, ◌≡◌, ◌≤◌,
}
use pars_c.Token.{Token, TokenType, between}
use pars_c.Outcome.{Always, Outcome, ok, thrown, undefined}
use pars_c.Lexer.State.{Lexer}
use pars_c.Syntax.{Expr, null_expr}
use pars_c.Parser.State.{
  Ast, Calls, Parser, Run, StdLib, advance, continue, lexing, peek_between, pure, returned,
  with_lexer, ◌>>=◌,
}
use pars_c.Parser.Symbols.{is_attribute}
use pars_c.Parser.Primary.{parse_keyword, parse_marked, parse_primary_inner}
use pars_c.Parser.Postfix.{
  Indexing, at_literal, at_test, index_loop, parse_call, parse_index, parse_member, parse_slice,
  parse_suffix, primary_from,
}
use pars_c.Parser.Ends.{
  Ends, Ends-gets, Ends-if, Ends-pure, EndsBy, EndsBy-lower, Left, Left-own, continue-Ends,
  expect-Ends, loosely, match-Ends, peek_is-Ends, takes_any, takes_some, took_or, ◌▸◌,
}
use pars_c.Parser.Ends.Steps.{
  Good, first_match-cons, first_match-nil, found_then, match_one_of-Ends, match_then, new_node-Ends,
}
use pars_c.Parser.Ends.Names.{attribute-cost}
use pars_c.Parser.Ends.Primaries.{
  collect_call_arguments-Ends, first_byte-Ends, parse_abs-Ends, parse_array_literal-Ends,
  parse_brace_list-Ends, parse_cast-Ends, parse_group-Ends, parse_identifier-Ends,
  parse_literal-Ends, parse_ptr_op-Ends,
}
use pars_c.Parser.Postfix
use mathlib.Core.Bool.{true≢false}
use pars_c.Lexer.Window
use pars_c.Lexer.Progress.Weights.{IsSmall-Takes, Takes, advance-Takes, held, peek-Takes, weight}

lower_then :
    {A B : Type 0} (w : ℕ) (takes : B → Bool) (r : Run A) (next : A → Parser B)
    → EndsBy takes_some w r
    → ((value : A) (v : ℕ) → v < w → Ends takes_any v (next value))
    → EndsBy takes w (continue r next)
lower_then w takes r next h k = continue-Ends w takes_some takes r next h λ value t p.
    let (own, lt) = Left-own p in
    EndsBy-lower (weight t.lexer) w takes (next value t) lt ((k value (weight t.lexer) lt).at t own)

-- A token that is peeked at, an attribute, is there to be taken.
abbrev peek_attribute : Parser Bool
peek_attribute = peek_between TokenType.attribute_keyword_start TokenType.attribute_keyword_end

module _ {B : Type 0} (w : ℕ) (takes : B → Bool) (next : Bool → Parser B)
    (when : (s : Ast)
      → Left false w s.lexer
      → held s.lexer.current_token ≡ 1
      → EndsBy takes w (next true s))
    (unless : Ends takes w (next false)) where
  peeked :
      (s : Ast) (o : Outcome (Token × Lexer))
      → Left false w s.lexer
      → Always (λ x. Takes s.lexer 0 x.1 × (x.1.current_token ≡ some x.0)) o
      → EndsBy takes w (
          continue (with_lexer o s) (λ token.
            pure
              (between TokenType.attribute_keyword_start TokenType.attribute_keyword_end token.type)
            >>= next))
  unfolding pure ◌>>=◌
  peeked s undefined h k = tt
  peeked s (thrown error) h k = tt
  peeked s (ok (token, l)) h k =
      let left : Left false w l = record {
        small = IsSmall-Takes h.small k.0;
        within = let a = h.within in let b = k.0.less in omega arith;
      } in
      elim (Bool-cases (is_attribute token.type)) [
        | inl e ↦
            rw e (when (record s { lexer = l }) left (ap held k.1 ∙ attribute-cost token.type e))
        | inr e ↦ rw e (unless.at (record s { lexer = l }) left)
      ]

  attribute_then : Ends takes w (peek_attribute >>= next)
  unfolding peek_between lexing ◌>>=◌ pure
  attribute_then = record {
    at = λ s h.
        rebind s (Window.peek s.lexer)
          (peeked s (Window.peek s.lexer) h (peek-Takes s.lexer h.small));
  }
    where
      rebind :
          (s : Ast) (o : Outcome (Token × Lexer))
          → EndsBy takes w (
              continue (with_lexer o s) (λ token t.
                next
                  (between TokenType.attribute_keyword_start TokenType.attribute_keyword_end
                    token.type)
                  t))
          → EndsBy takes w (
              continue
                (continue (with_lexer o s) (λ token t.
                  returned
                    (between TokenType.attribute_keyword_start TokenType.attribute_keyword_end
                      token.type)
                    t))
                next)
      rebind s undefined h = h
      rebind s (thrown error) h = h
      rebind s (ok x) h = h

advance_took :
    (w : ℕ) (s : Ast)
    → Left false w s.lexer
    → held s.lexer.current_token ≡ 1
    → EndsBy takes_some w (advance s)
unfolding lexing
advance_took w s h e = advanced (Window.advance s.lexer) (advance-Takes s.lexer h.small)
  where
    advanced :
        (o : Outcome (Token × Lexer))
        → Always
            (λ x.
              Takes s.lexer (held s.lexer.current_token) x.1
              × (x.1.current_token ≡ some x.0)
              × (x.1.last_token ≡ s.lexer.current_token))
            o
        → EndsBy takes_some w (with_lexer o s)
    advanced undefined k = tt
    advanced (thrown error) k = tt
    advanced (ok (token, l)) k = record {
      small = IsSmall-Takes h.small k.0;
      within = let a = h.within in let b = k.0.less in omega arith;
    }

keyword_taken :
    (c : Calls) (w : ℕ) (s : Ast)
    → Left false w s.lexer
    → held s.lexer.current_token ≡ 1
    → (takes : Expr → Bool) → EndsBy takes w (parse_keyword c s)
unfolding parse_keyword ◌>>=◌
keyword_taken c w s h e takes =
    lower_then w takes (advance s) _ (advance_took w s h e)
      (λ token v lt. new_node-Ends ▸ λ node. Ends-pure _)

-- The null pointer is what an expression that is not there gives.
abbrev is_there : Expr → Bool
is_there null_expr = false
is_there e = true

module _ (c : Calls) (n : ℕ) (g : Good n c) where
  parse_marked-Ends : (w : ℕ) → w ≤ n → Ends is_there w (parse_marked c)
  unfolding parse_marked pure
  parse_marked-Ends w le =
      first_match-cons _ _ _ _ refl
        (λ v lt.
          new_node-Ends ▸ λ node. parse_brace_list-Ends c n g v (omega arith) ▸ λ es. Ends-pure _)
        (first_match-cons _ _ _ _ refl (λ v lt. parse_abs-Ends c n g v (omega arith))
          (first_match-cons _ _ _ _ refl (λ v lt. parse_ptr_op-Ends c n g v (omega arith))
            (first_match-cons _ _ _ _ refl (λ v lt. parse_ptr_op-Ends c n g v (omega arith))
              (first_match-cons _ _ _ _ refl (λ v lt. new_node-Ends ▸ λ node. Ends-pure _)
                (first_match-cons _ _ _ _ refl
                  (λ v lt. parse_array_literal-Ends c n g v _ _ (omega arith))
                  (first_match-nil _ (record { at = λ s h. h })))))))

  parse_primary_inner-Ends : (w : ℕ) → w ≤ n → Ends is_there w (parse_primary_inner c)
  unfolding parse_primary_inner
  parse_primary_inner-Ends w le =
      first_match-cons _ _ _ _ refl (λ v lt. parse_group-Ends c n g v (omega arith))
        (first_match-cons _ _ _ _ refl (λ v lt. parse_identifier-Ends c n g v (omega arith))
          (first_match-cons _ _ _ _ refl
            (λ v lt. g.expression v (omega arith) ▸ λ e. new_node-Ends ▸ λ node. Ends-pure _)
            (first_match-cons _ _ _ _ refl
              (λ v lt. g.expression v (omega arith) ▸ λ e. new_node-Ends ▸ λ node. Ends-pure _)
              (first_match-cons _ _ _ _ refl (λ v lt. parse_cast-Ends c n g v (omega arith))
                (first_match-nil _ (
                  attribute_then w is_there _ (λ s h e. keyword_taken c w s h e is_there)
                    (parse_marked-Ends w le)))))))

  parse_slice-Ends : (w : ℕ) (lhs start : Expr) → w < n → Ends takes_any w (parse_slice c lhs start)
  unfolding parse_slice
  parse_slice-Ends w lhs start lt = new_node-Ends ▸ λ node.
      peek_is-Ends TokenType.right_bracket ▸ λ open_end.
      Ends-if open_end (Ends-pure null_expr) (loosely (g.expression w lt)) ▸ λ end.
      expect-Ends TokenType.right_bracket refl ▸ λ _. Ends-pure _

  parse_index-Ends : (w : ℕ) (lhs index : Expr) → w < n → Ends takes_any w (parse_index c lhs index)
  unfolding parse_index
  parse_index-Ends w lhs index lt =
      new_node-Ends ▸ λ node. expect-Ends TokenType.right_bracket refl ▸ λ _. Ends-pure _

  index_loop-Ends :
      (r w : ℕ) (inner lhs : Expr) → w < r → w < n → Ends takes_any w (index_loop c r inner lhs)
  unfolding index_loop
  index_loop-Ends zero w inner lhs lt below = absurd (omega arith)
  index_loop-Ends (suc r) w inner lhs lt below =
      match_then TokenType.left_bracket _ refl
        (λ v lower. peek_is-Ends TokenType.colon ▸ λ open_start.
          Ends-if open_start (Ends-pure null_expr) (loosely (g.expression v (omega arith)))
          ▸ λ index.
              match_then TokenType.colon _ refl
                (λ u lower'. parse_slice-Ends u _ index (omega arith) ▸ λ lhs'.
                  index_loop-Ends r u inner lhs' (omega arith) (omega arith))
                (match_then TokenType.comma _ refl
                  (λ u lower'.
                    parse_array_literal-Ends c n g u inner _ (omega arith) ▸ λ e. Ends-pure _)
                  (parse_index-Ends v _ index (omega arith) ▸ λ lhs'.
                    index_loop-Ends r v inner lhs' (omega arith) (omega arith))))
        (Ends-pure _)

  parse_member-Ends : (w : ℕ) (target : Expr) → w < n → Ends takes_any w (parse_member c target)
  unfolding parse_member
  parse_member-Ends w target lt = new_node-Ends ▸ λ node.
      Ends-gets _ ▸ λ is_static. g.parse_primary w lt ▸ λ accessor. Ends-pure _

  parse_call-Ends : (w : ℕ) (callable : Expr) → w < n → Ends takes_any w (parse_call c callable)
  unfolding parse_call
  parse_call-Ends w callable lt = collect_call_arguments-Ends c n g w lt ▸ λ arguments.
      new_node-Ends ▸ λ node. expect-Ends TokenType.right_paren refl ▸ λ _. Ends-pure _

  parse_suffix-Ends :
      (w : ℕ) (inner : Expr) (indexing : Indexing)
      → w < n
      → Ends takes_any w (parse_suffix c inner indexing)
  unfolding parse_suffix
  parse_suffix-Ends w inner (at_literal e) lt = Ends-pure e
  parse_suffix-Ends w inner (at_test lhs) lt =
      match_one_of-Ends (TokenType.dot ∷ TokenType.colon_colon ∷ []) (refl, (refl, tt)) ▸ λ member.
      Ends-if member (parse_member-Ends w _ lt) (
        match-Ends TokenType.left_paren refl ▸ λ is_call.
        Ends-if is_call (parse_call-Ends w _ lt) (Ends-pure _))

  indexed-Ends :
      (w : ℕ) (inner : Expr)
      → w < n
      → Ends takes_any w (index_loop c c.rounds inner null_expr >>= parse_suffix c inner)
  indexed-Ends w inner lt =
      let enough = g.rounds in
      index_loop-Ends c.rounds w inner null_expr (omega arith) lt ▸ λ indexing.
      parse_suffix-Ends w inner indexing lt

  primary_from-Ends :
      (w : ℕ) (std : StdLib) (inner : Expr)
      → w < n
      → is_there inner ≡ true
      → Ends takes_any w (primary_from c std inner)
  unfolding primary_from
  primary_from-Ends w std null_expr lt e = absurd (true≢false (sym e))
  primary_from-Ends w std inner lt e = indexed-Ends w _ lt

  literal-Ends :
      (w : ℕ) (std : StdLib) (inner : Expr)
      → is_there inner ≡ false
      → Ends takes_some w (primary_from c std inner)
  unfolding primary_from
  literal-Ends w std null_expr e = parse_literal-Ends std
  literal-Ends w std inner e = absurd (true≢false e)

  pub parse_primary-Ends :
      (w : ℕ) (std : StdLib) → w ≤ n → Ends takes_some w (Postfix.parse_primary c std)
  unfolding Postfix.parse_primary
  parse_primary-Ends w std le =
      took_or (parse_primary_inner-Ends w le)
        (λ inner v lt e. primary_from-Ends v std inner (omega arith) e)
        (λ inner e. literal-Ends w std inner e)

  pub parse_unary-Ends :
      (w : ℕ) (std : StdLib) → w ≤ n → Ends takes_some w (Postfix.parse_unary c std)
  unfolding Postfix.parse_unary
  parse_unary-Ends w std le =
      found_then _ (match_one_of-Ends (TokenType.bang ∷ TokenType.minus ∷ []) (refl, (refl, tt)))
        (λ v lt. Ends-gets _ ▸ λ op. g.parse_unary v (omega arith) ▸ λ right.
          new_node-Ends ▸ λ node. first_byte-Ends _ ▸ λ char. Ends-pure _)
        (parse_primary-Ends w std le)
