-- ===== src/Parser/Knot.antt =====
-- The functions of the parser call one another: `calls_with` has them with fuel for as many calls in
-- one another. `parse` of src/ast.cpp runs on them.
use pars_c.Common.{if◌then◌else◌, not, suc, zero, ℕ}
use pars_c.Token.{TokenType}
use pars_c.Syntax.{AnyNode, Nodes, no_nodes}
use pars_c.ScopeTable.{set_lock, unlocked_level}
use pars_c.Parser.State.{Calls, Parser, StdLib, exhausted, gets, lexing, modify, pure, ◌>>=◌, ◌>>◌}
use pars_c.Parser.Binary.{expression}
use pars_c.Parser.Postfix.{parse_primary, parse_unary}
use pars_c.Parser.Types.{parse_type}
use pars_c.Parser.Declarations.{add_node}
use pars_c.Parser.Statements.{declaration, parse_if}
use pars_c.Lexer.Window

abbrev pub no_calls : Calls
no_calls = record {
  rounds = 0;
  expression = exhausted;
  parse_unary = exhausted;
  parse_primary = exhausted;
  parse_type = λ mut_set position imut_override. exhausted;
  declaration = exhausted;
  parse_if = exhausted;
}

abbrev next_calls : StdLib → Calls → ℕ → Calls
next_calls std calls rounds = record {
  rounds = rounds;
  expression = expression calls;
  parse_unary = parse_unary calls std;
  parse_primary = parse_primary calls std;
  parse_type = parse_type calls;
  declaration = declaration calls std;
  parse_if = parse_if calls;
}

unfoldable pub calls_with : StdLib → ℕ → Calls
calls_with std zero = no_calls
calls_with std (suc n) = next_calls std (calls_with std n) (suc n)

-- The loop of `parse` over the declarations.
unfoldable pub parse_loop_nodes : ℕ → Parser AnyNode → Parser Nodes
parse_loop_nodes zero node = exhausted
parse_loop_nodes (suc n) node = gets (λ s. Window.has_next s.lexer) >>= λ more.
    if not more
    then pure no_nodes
    else (lexing (Window.match_next TokenType.eof) >>= λ ended.
        if ended
        then pure no_nodes
        else (do first ← node; nodes ← parse_loop_nodes n node; pure (add_node first nodes)))

-- `parse`, once the source is set
unfoldable pub parse : StdLib → ℕ → Parser Nodes
parse std fuel = do
  modify (λ s. record s { scope_table = set_lock 0 s.scope_table })
  nodes ← parse_loop_nodes fuel (declaration (calls_with std fuel) std)
  modify (λ s. record s { scope_table = set_lock unlocked_level s.scope_table })
  pure nodes
