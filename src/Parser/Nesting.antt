-- ===== src/Parser/Nesting.antt =====
-- How the operators of an expression nest, and what a call of the parser returns.
pub mod Primaries
pub mod Ladder
use pars_c.Common.{arith, ℕ, ◌<◌, ◌≤◌}
use pars_c.Token.{TokenType}
use pars_c.Syntax.{Expr, binary, null_expr}

-- How tightly an operator binds; `and` is the loosest.
unfoldable pub rank : TokenType → ℕ
rank TokenType.and_kw = 0
rank TokenType.or_kw = 1
rank TokenType.equal_equal = 2
rank TokenType.bang_equal = 2
rank TokenType.less = 3
rank TokenType.less_equal = 3
rank TokenType.greater = 3
rank TokenType.greater_equal = 3
rank TokenType.plus = 4
rank TokenType.minus = 4
rank TokenType.star = 5
rank TokenType.forward_slash = 5
rank TokenType.percent = 5
rank TokenType.star_star = 6
rank TokenType.dot_dot = 7
rank TokenType.dot_dot_equal = 7
rank _ = 8

-- The rank of the operator at the top; an operand that is no binary expression is tightest.
abbrev pub top_rank : Expr → ℕ
top_rank (binary node left op right) = rank op
top_rank _ = 8

-- The operators nest by their ranks: on the left none that is looser, on the right only tighter.
abbrev pub Nested : Expr → Type 0
Nested (binary node left op right) =
    (rank op ≤ top_rank left) × (rank op < top_rank right) × Nested left × Nested right
Nested _ = Unit {0}

-- An expression at the rank `k` of the ladder.
abbrev pub NestedFrom : ℕ → Expr → Type 0
NestedFrom k e = (k ≤ top_rank e) × Nested e

abbrev pub IsPrimary : Expr → Type 0
IsPrimary (binary node left op right) = ⊥
IsPrimary _ = Unit {0}

pub NestedFrom-primary : (e : Expr) → IsPrimary e → NestedFrom 8 e
NestedFrom-primary null_expr h = (omega arith, tt)
NestedFrom-primary (binary node left op right) h = absurd h
NestedFrom-primary _ h = (omega arith, tt)
