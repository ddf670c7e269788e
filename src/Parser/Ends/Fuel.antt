-- ===== src/Parser/Ends/Fuel.antt =====
-- The fuel of the functions of src/ast.cpp, tied together.
use pars_c.Common.{Bool, arith, false, refl, suc, zero, ℕ, ◌*◌, ◌+◌, ◌<◌, ◌≡◌, ◌≤◌}
use pars_c.Token.{TokenType}
use pars_c.Syntax.{AnyNode, VarDecls, no_nodes}
use pars_c.Parser.State.{
  Ast, Calls, Parser, Run, StdLib, no_fuel, no_meaning, out_of_range, returned, threw,
}
use pars_c.Parser.Types.{parse_fn_signature}
use pars_c.Parser.Declarations.{parse_enum}
use pars_c.Parser.Knot.{calls_with, parse, parse_loop_nodes}
use pars_c.Parser.Ends.{
  Ends, Ends-gets, Ends-if, Ends-pure, EndsBy, Left, match_next-Ends, takes_any, takes_some, ◌▸◌,
  ◌▹◌,
}
use pars_c.Parser.Ends.Steps.{Good, modify-Ends}
use pars_c.Parser.Ends.Primaries.{expression-Ends}
use pars_c.Parser.Ends.Suffixes.{parse_primary-Ends, parse_unary-Ends}
use pars_c.Parser.Ends.Typings.{parse_fn_signature-Ends, parse_type-Ends}
use pars_c.Parser.Ends.Declared.{parse_enum-Ends}
use pars_c.Parser.Ends.Whole.{declaration-Ends, parse_if-Ends}
use pars_c.Lexer.Progress.Weights.{IsSmall, weight}

-- What the calls with fuel `m` reach.
record Reaches (m : ℕ) (c : Calls) : Type 0 where
  rounds_is : c.rounds ≡ m
  good : (n : ℕ) → 2 * n ≤ m → Good n c
  unary : (w : ℕ) → 2 * w + 1 ≤ m → Ends takes_some w c.parse_unary

calls_with-Reaches : (std : StdLib) (m : ℕ) → Reaches m (calls_with std m)
unfolding calls_with
calls_with-Reaches std zero = record {
  rounds_is = refl;
  good = λ n le. record {
    rounds = omega arith;
    expression = λ w lt. absurd (omega arith);
    parse_unary = λ w lt. absurd (omega arith);
    parse_primary = λ w lt. absurd (omega arith);
    parse_type = λ w lt mut_set position imut_override. absurd (omega arith);
    declaration = λ w lt. absurd (omega arith);
    parse_if = λ w lt. absurd (omega arith);
  };
  unary = λ w lt. absurd (omega arith);
}
calls_with-Reaches std (suc m) =
    let c = calls_with std m in
    let h = calls_with-Reaches std m in
    let same = h.rounds_is in
    record {
      rounds_is = refl;
      good = λ n le. record {
        rounds = omega arith;
        expression = λ w lt.
            expression-Ends c w (omega arith) (λ v at_most. h.unary v (omega arith)) w
              (omega arith);
        parse_unary = λ w lt. parse_unary-Ends c w (h.good w (omega arith)) w std (omega arith);
        parse_primary = λ w lt. parse_primary-Ends c w (h.good w (omega arith)) w std (omega arith);
        parse_type = λ w lt mut_set position imut_override.
            parse_type-Ends c w (h.good w (omega arith)) w mut_set position imut_override
              (omega arith);
        declaration = λ w lt. declaration-Ends c w (h.good w (omega arith)) w std (omega arith);
        parse_if = λ w lt. parse_if-Ends c (w + 1) (h.good (w + 1) (omega arith)) w (omega arith);
      };
      unary = λ w le. parse_unary-Ends c w (h.good w (omega arith)) w std (omega arith);
    }

parse_loop_nodes-Ends :
    (r w : ℕ) (node : Parser AnyNode)
    → w < r
    → ((v : ℕ) → v ≤ w → Ends takes_some v node)
    → Ends takes_any w (parse_loop_nodes r node)
unfolding parse_loop_nodes
parse_loop_nodes-Ends zero w node lt h = absurd (omega arith)
parse_loop_nodes-Ends (suc r) w node lt h = Ends-gets _ ▸ λ more. Ends-if _ (Ends-pure no_nodes) (
    match_next-Ends TokenType.eof ▸ λ ended. Ends-if ended (Ends-pure no_nodes) (
      h w (omega arith) ▹ λ first v lower.
      parse_loop_nodes-Ends r v node (omega arith) (λ u le. h u (omega arith)) ▸ λ nodes.
      Ends-pure _))

parse-Ends : (std : StdLib) (fuel w : ℕ) → 2 * w < fuel → Ends takes_any w (parse std fuel)
unfolding parse
parse-Ends std fuel w enough =
    let c = calls_with std fuel in
    let h = calls_with-Reaches std fuel in
    modify-Ends _ (λ s. refl) ▸ λ _.
    parse_loop_nodes-Ends fuel w _ (omega arith)
      (λ v le. declaration-Ends c v (h.good v (omega arith)) v std (omega arith))
    ▸ λ nodes. modify-Ends _ (λ s. refl) ▸ λ _. Ends-pure nodes

-- A call that ends as it should: it does not run out of fuel, and what it returns has the property.
abbrev pub Settles : {A : Type 0} → (A → Ast → Type 0) → Run A → Type 0
Settles P (returned value s) = P value s
Settles P (threw error) = Unit
Settles P out_of_range = Unit
Settles P no_meaning = Unit
Settles P no_fuel = ⊥

module _ {A : Type 0} where
  pub settles :
      (w : ℕ) (takes : A → Bool) (P : A → Ast → Type 0) (r : Run A)
      → EndsBy takes w r
      → ((value : A) (s : Ast) → r ≡ returned value s → P value s)
      → Settles P r
  settles w takes P (returned value s) h k = k value s refl
  settles w takes P (threw error) h k = tt
  settles w takes P out_of_range h k = tt
  settles w takes P no_meaning h k = tt
  settles w takes P no_fuel h k = h

-- In a file of less than 2^32 bytes the parser ends with fuel for twice the bytes that are left.
pub parse-EndsBy :
    (std : StdLib) (fuel : ℕ) (s : Ast)
    → IsSmall s.lexer
    → 2 * weight s.lexer < fuel
    → EndsBy takes_any (weight s.lexer) (parse std fuel s)
parse-EndsBy std fuel s small enough =
    (parse-Ends std fuel (weight s.lexer) enough).at s
      (record { small = small; within = omega arith })

pub Left-all : (s : Ast) → IsSmall s.lexer → Left false (weight s.lexer) s.lexer
Left-all s small = record { small = small; within = omega arith }

-- The functions with fuel for as many calls as the weight needs, at a state.
module _ (std : StdLib) (fuel : ℕ) (s : Ast) (small : IsSmall s.lexer)
    (enough : 2 * weight s.lexer + 2 ≤ fuel) where
  reached : Good (weight s.lexer + 1) (calls_with std fuel)
  reached = (calls_with-Reaches std fuel).good (weight s.lexer + 1) (omega arith)

  pub expression-EndsBy : EndsBy takes_some (weight s.lexer) ((calls_with std fuel).expression s)
  expression-EndsBy = (reached.expression _ (omega arith)).at s (Left-all s small)

  pub parse_enum-EndsBy : EndsBy takes_any (weight s.lexer) (parse_enum (calls_with std fuel) std s)
  parse_enum-EndsBy =
      (parse_enum-Ends _ _ reached (weight s.lexer) std (omega arith)).at s (Left-all s small)

  pub parse_fn_signature-EndsBy :
      (parse_names : Bool) (added : VarDecls)
      → EndsBy takes_any
          (weight s.lexer)
          (parse_fn_signature (calls_with std fuel) parse_names added s)
  parse_fn_signature-EndsBy parse_names added =
      (parse_fn_signature-Ends _ _ reached (weight s.lexer) parse_names added (omega arith)).at s
        (Left-all s small)
