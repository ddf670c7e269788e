-- ===== src/Parser/Ends/Names.antt =====
-- The fuel of the functions of src/ast.cpp on attributes and symbols.
use pars_c.Common.{
  Bool, Bool-cases, Bytes, List, Option, ap, arith, false, if◌then◌else◌, inl, inr, none, not, refl,
  some, suc, sym, true, zero, ℕ, ◌<◌, ◌||◌, ◌≡◌, ◌≤◌,
}
use pars_c.Token.{Token, TokenType, between}
use pars_c.Outcome.{Always, Outcome, invalid_attribute, ok, thrown, undefined}
use pars_c.Lexer.State.{Lexer}
use pars_c.Parser.State.{
  Ast, Calls, continue, gets, lexing, peek_last, pure, throw, with_lexer, ◌>>=◌,
}
use pars_c.Parser.Symbols.{
  attribute_buffer, attribute_list, collect_attributes, emplace_token, get_symbol, is_attribute,
  is_empty, keep_attributes, parse_attributes, symbol_of,
}
use pars_c.Parser.Ends.{
  Ends, Ends-pure, EndsBy, Left, expect-Ends, match-Ends, takes_any, takes_some, ◌▸◌, ◌▹◌,
}
use pars_c.Parser.Ends.Steps.{match_then, modify-Ends}
use mathlib.Core.Bool.{true≢false}
use pars_c.Lexer.Window
use pars_c.Lexer.Window.{value_or}
use pars_c.Lexer.Progress.Tokens.{cost}
use pars_c.Lexer.Progress.Weights.{Takes, advance-Takes, held, IsSmall-Takes}

pub attribute-cost : (type : TokenType) → is_attribute type ≡ true → cost type ≡ 1
unfolding between
attribute-cost TokenType.eof h = absurd (true≢false (sym h))
attribute-cost type h = refl

-- The token that is read must be an attribute, and so it is not the last one.
last-cost :
    (current : Option Token) → is_attribute (value_or current).type ≡ true → held current ≡ 1
unfolding between
last-cost none h = absurd (true≢false (sym h))
last-cost (some token) h = attribute-cost token.type h

emplaced :
    (w : ℕ) (s : Ast) (o : Outcome (Token × Lexer))
    → Left false w s.lexer
    → Always
        (λ x.
          Takes s.lexer (held s.lexer.current_token) x.1
          × (x.1.current_token ≡ some x.0)
          × (x.1.last_token ≡ s.lexer.current_token))
        o
    → EndsBy takes_some w (
        continue (with_lexer o s) (λ _. peek_last >>= λ token.
        if is_attribute token.type
        then pure token.type
        else throw token (invalid_attribute token.lexeme)))
unfolding pure throw gets ◌>>=◌ Window.peek_last
emplaced w s undefined l h = tt
emplaced w s (thrown error) l h = tt
emplaced w s (ok (token, l')) l h =
    let last = value_or l'.last_token in
    elim (Bool-cases (is_attribute last.type)) [
      | inr e ↦ rw e tt
      | inl e ↦ rw e (record {
        small = IsSmall-Takes l.small h.0;
        within =
            let same : held l'.last_token ≡ held s.lexer.current_token = ap held h.2 in
            let one = last-cost l'.last_token e in
            let a = l.within in let b = h.0.less in omega arith;
      })
    ]

emplace_token-Ends : {w : ℕ} → Ends takes_some w emplace_token
unfolding emplace_token lexing ◌>>=◌
emplace_token-Ends {w} = record {
  at = λ s l. emplaced w s (Window.advance s.lexer) l (advance-Takes s.lexer l.small);
}

attribute_list-Ends : (r w : ℕ) → w < r → Ends takes_some w (attribute_list r)
unfolding attribute_list
attribute_list-Ends zero w lt = absurd (omega arith)
attribute_list-Ends (suc r) w lt = emplace_token-Ends ▹ λ type v below.
    match_then TokenType.comma _ refl
      (λ u lower. attribute_list-Ends r u (omega arith) ▸ λ types. Ends-pure _) (Ends-pure _)

attribute_buffer-Ends :
    (r w : ℕ) (bracket : Bool) → w < r → Ends takes_any w (attribute_buffer r bracket)
unfolding attribute_buffer
attribute_buffer-Ends r w false lt = emplace_token-Ends ▸ λ type. Ends-pure _
attribute_buffer-Ends r w true lt = attribute_list-Ends r w lt ▸ λ types.
    expect-Ends TokenType.right_bracket refl ▸ λ _. Ends-pure _

keep_attributes-lexer :
    (types : List TokenType) (for_module : Bool) (s : Ast)
    → (keep_attributes types for_module s).lexer ≡ s.lexer
unfolding keep_attributes
keep_attributes-lexer types true s = refl
keep_attributes-lexer types false s = refl

parse_attributes-Ends : (c : Calls) (w : ℕ) → w < c.rounds → Ends takes_any w (parse_attributes c)
unfolding parse_attributes
parse_attributes-Ends c w lt = match-Ends TokenType.left_bracket refl ▸ λ bracket.
    attribute_buffer-Ends c.rounds w bracket lt ▸ λ types.
    match-Ends TokenType.colon refl ▸ λ for_module.
    modify-Ends _ (keep_attributes-lexer types for_module)

pub collect_attributes-Ends :
    (c : Calls) (w : ℕ) → w ≤ c.rounds → Ends takes_any w (collect_attributes c)
unfolding collect_attributes
collect_attributes-Ends c w le =
    match_then TokenType.at _ refl (λ v lt. parse_attributes-Ends c v (omega arith)) (Ends-pure tt)

symbol_of-Ends : {w : ℕ} (name : Bytes) → Ends takes_any w (symbol_of name)
unfolding symbol_of
symbol_of-Ends name = record {
  at = λ s h.
      elim (Bool-cases
        (not (is_empty s.pending_attributes) || not (is_empty s.module_attributes))) [
          | inl some_set ↦ rw some_set h
          | inr none_set ↦ rw none_set h
        ];
}

pub get_symbol-Ends : {w : ℕ} → Ends takes_some w get_symbol
unfolding get_symbol
get_symbol-Ends = expect-Ends TokenType.identifier refl ▹ λ token v lt. symbol_of-Ends token.lexeme
