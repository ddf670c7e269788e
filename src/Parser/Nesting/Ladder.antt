-- ===== src/Parser/Nesting/Ladder.antt =====
-- The ladder of the binary rules of src/ast.cpp, and the ranks of the operators that it reads.
use pars_c.Common.{
  Bool, List, [], ap, arith, false, if◌then◌else◌, refl, suc, sym, true, zero, ℕ, ◌*◌, ◌+◌, ◌∙◌,
  ◌∷◌, ◌≡◌, ◌≤◌,
}
use pars_c.Token.{TokenType}
use pars_c.Outcome.{Outcome, ok, thrown, undefined}
use pars_c.Lexer.State.{Lexer}
use pars_c.Syntax.{Expr, Node, binary}
use pars_c.Parser.State.{
  Ast, Calls, Parser, StdLib, exhausted, gets, lexing, match_one_of, new_node, peek_last, pure,
  returned, with_lexer, ◌>>=◌,
}
use pars_c.Parser.Binary.{
  binary_loop, parse_and, parse_binary_rule, parse_comparison, parse_equality, parse_exp,
  parse_factor, parse_or, parse_range, parse_term,
}
use pars_c.Parser.Knot.{calls_with}
use pars_c.Parser.Ends.Fuel.{Settles, expression-EndsBy, settles}
use pars_c.Parser.Returns.{Post, Post-map, Yields, Yields-exhausted, continue-Post, ◌▸◌}
use pars_c.Parser.Nesting.{Nested, NestedFrom, NestedFrom-primary, rank}
use pars_c.Parser.Nesting.Primaries.{parse_unary-IsPrimary}
use pars_c.Lexer.Progress.Weights.{IsSmall, weight}
use mathlib.Core.Path.{subst}
use mathlib.Core.Bool.{true≢false}
use pars_c.Parser.Binary
use pars_c.Lexer.Window
use pars_c.Lexer.Window.Matched.{match-last}

-- Every operator of the list has the rank.
abbrev AllRank : ℕ → List TokenType → Type 0
AllRank k [] = Unit {0}
AllRank k (type ∷ types) = (rank type ≡ k) × AllRank k types

-- The last token has the rank, if one of the types was found.
abbrev RankFound : ℕ → Bool → Ast → Type 0
RankFound k found s = found ≡ true → rank (Window.peek_last s.lexer).type ≡ k

matched :
    (type : TokenType) (k : ℕ) (o : Outcome (Bool × Lexer)) (s : Ast)
    → rank type ≡ k
    → ((l : Lexer) → o ≡ ok (true, l) → (Window.peek_last l).type ≡ type)
    → Post (RankFound k) (with_lexer o s)
matched type k undefined s e h = tt
matched type k (thrown error) s e h = tt
matched type k (ok (found, l)) s e h = λ f. ap rank (h l (ap (λ b. ok (b, l)) f)) ∙ e

found_or_next :
    (k : ℕ) (found : Bool) (m : Parser Bool) (s : Ast)
    → RankFound k found s
    → Post (RankFound k) (m s)
    → Post (RankFound k) ((if found then pure true else m) s)
unfolding pure
found_or_next k true m s h r = h
found_or_next k false m s h r = r

match_one_of-RankFound :
    (k : ℕ) (types : List TokenType) (s : Ast)
    → AllRank k types
    → Post (RankFound k) (match_one_of types s)
unfolding match_one_of ◌>>=◌ pure lexing
match_one_of-RankFound k [] s h = λ e. absurd (true≢false (sym e))
match_one_of-RankFound k (type ∷ types) s h =
    continue-Post (RankFound k) (RankFound k) (with_lexer (Window.match type s.lexer) s) _
      (matched type k (Window.match type s.lexer) s h.0 (match-last type s.lexer))
      (λ found s' r.
        found_or_next k found (match_one_of types) s' r (match_one_of-RankFound k types s' h.1))

-- One round of the loop, with what the rounds behind it do.
binary_round :
    (k : ℕ) (rule : Parser Expr) (left : Expr) (loop : Expr → Parser Expr)
    → Yields (NestedFrom (suc k)) rule
    → NestedFrom k left
    → ((e : Expr) → NestedFrom k e → Yields (NestedFrom k) (loop e))
    → (more : Bool) (s : Ast) → RankFound k more s
    → Post
        (λ e s'. NestedFrom k e)
        ((if more
            then (peek_last >>= λ op.
                rule >>= λ right. new_node >>= λ node. loop (binary node left op.type right))
            else pure left)
          s)
unfolding ◌>>=◌ gets pure new_node
binary_round k rule left loop h l later false s r = l
binary_round k rule left loop h l later true s r =
    let op = (Window.peek_last s.lexer).type in
    let e : rank op ≡ k = r refl in
    continue-Post (λ right s'. NestedFrom (suc k) right) (λ e s'. NestedFrom k e) (rule s) _
      (h.at s)
      (λ right s' p.
        let node : Node = record { id = s'.node_count; token = Window.peek_last s'.lexer } in
        (later (binary node left op right) (
          omega arith,
          ((let a = l.0 in omega arith), (let b = p.0 in omega arith), l.1, p.1),
        )).at
          (record s' { node_count = suc s'.node_count }))

binary_loop-NestedFrom :
    (k n : ℕ) (ops : List TokenType) (rule : Parser Expr) (left : Expr)
    → AllRank k ops
    → Yields (NestedFrom (suc k)) rule
    → NestedFrom k left
    → Yields (NestedFrom k) (binary_loop n ops rule left)
unfolding binary_loop ◌>>=◌
binary_loop-NestedFrom k zero ops rule left a h l = Yields-exhausted _
binary_loop-NestedFrom k (suc n) ops rule left a h l = record {
  at = λ s.
      continue-Post (RankFound k) (λ e s'. NestedFrom k e) (match_one_of ops s) _
        (match_one_of-RankFound k ops s a)
        (binary_round k rule left (binary_loop n ops rule) h l
          (λ e m. binary_loop-NestedFrom k n ops rule e a h m));
}

-- A rung of the ladder: operators of one rank between operands of the next one.
pub parse_binary_rule-NestedFrom :
    (k n : ℕ) (ops : List TokenType) (rule : Parser Expr)
    → AllRank k ops
    → Yields (NestedFrom (suc k)) rule
    → Yields (NestedFrom k) (parse_binary_rule ops n rule)
unfolding parse_binary_rule
parse_binary_rule-NestedFrom k n ops rule a h =
    h ▸ λ left p. binary_loop-NestedFrom k n ops rule left a h (let b = p.0 in (omega arith, p.1))

module _ (c : Calls) (h : Yields (NestedFrom 8) c.parse_unary) where
  parse_exp-NestedFrom : Yields (NestedFrom 6) (parse_exp c)
  unfolding parse_exp parse_range rank
  parse_exp-NestedFrom =
      parse_binary_rule-NestedFrom 6 _ _ _ (refl, tt)
        (parse_binary_rule-NestedFrom 7 _ _ _ (refl, (refl, tt)) h)

  parse_comparison-NestedFrom : Yields (NestedFrom 3) (parse_comparison c)
  unfolding parse_comparison parse_term parse_factor rank
  parse_comparison-NestedFrom =
      parse_binary_rule-NestedFrom 3 _ _ _ (refl, (refl, (refl, (refl, tt))))
        (parse_binary_rule-NestedFrom 4 _ _ _ (refl, (refl, tt))
          (parse_binary_rule-NestedFrom 5 _ _ _ (refl, (refl, (refl, tt))) parse_exp-NestedFrom))

  expression-NestedFrom : Yields (NestedFrom 0) (Binary.expression c)
  unfolding Binary.expression parse_and parse_or parse_equality rank
  expression-NestedFrom =
      parse_binary_rule-NestedFrom 0 _ _ _ (refl, tt)
        (parse_binary_rule-NestedFrom 1 _ _ _ (refl, tt)
          (parse_binary_rule-NestedFrom 2 _ _ _ (refl, (refl, tt)) parse_comparison-NestedFrom))

parse_unary-NestedFrom :
    (std : StdLib) (n : ℕ) → Yields (NestedFrom 8) (calls_with std n).parse_unary
unfolding calls_with
parse_unary-NestedFrom std zero = Yields-exhausted _
parse_unary-NestedFrom std (suc n) = record {
  at = λ s. Post-map _ _ _ ((parse_unary-IsPrimary (calls_with std n) std).at s) NestedFrom-primary;
}

-- In an expression that the parser returns, the operators nest by their ranks: to the left of an
-- operator stands none that is looser, and to its right only tighter ones.
read-Nested :
    (std : StdLib) (fuel : ℕ) (s s' : Ast) (e : Expr)
    → (calls_with std fuel).expression s ≡ returned e s'
    → Nested e
unfolding calls_with exhausted
read-Nested std zero s s' e h = subst (Post (λ x t. Nested x)) h tt
read-Nested std (suc n) s s' e h =
    (subst (Post (λ x t. NestedFrom 0 x)) h
      ((expression-NestedFrom (calls_with std n) (parse_unary-NestedFrom std n)).at s)).1

-- In a text of less than 2^32 bytes, with fuel for twice the weight of the lexer and two, the reading
-- of an expression does not run out of fuel; and in the expression that it returns the operators
-- nest by their ranks: to the left of an operator stands none that is looser, and to its right only
-- tighter ones. So operators of one rank nest to the left, `**` with them, and `and` is looser than
-- `or`.
pub expression-Nested :
    (std : StdLib) (fuel : ℕ) (s : Ast)
    → IsSmall s.lexer
    → 2 * weight s.lexer + 2 ≤ fuel
    → Settles (λ e s'. Nested e) ((calls_with std fuel).expression s)
expression-Nested std fuel s small enough =
    settles (weight s.lexer) _ _ _ (expression-EndsBy std fuel s small enough)
      λ e s' h. read-Nested std fuel s s' e h
