-- ===== src/Parser/State.antt =====
-- The state of the parser, the fields of `AST` in src/ast.hpp, and how its functions run on it.
use pars_c.Common.{
  Bool, Bytes, List, Option, [], false, if◌then◌else◌, none, some, suc, true, ℕ, ◌++◌, ◌∷◌,
}
use pars_c.Token.{Token, TokenType, between}
use pars_c.Outcome.{FrontendError, Outcome, Reason, ok, thrown, undefined}
use pars_c.Lexer.State.{Lexer}
use pars_c.Syntax.{AnyNode, Expr, MutSet, Node, Ty}
use pars_c.ScopeTable.{ScopeTable}
use pars_c.Lexer.Window

-- What a scope holds: a type, by its number, or an overload set, by its place in `collections`.
pub data Entry : Type 0 where
  type_at : ℕ → Entry
  collection_at : ℕ → Entry

-- `node_count` counts the calls of `new_node`; `collections` has the functions of each
-- `FnCollection` by their numbers; `function_stack` has the return type of each function on it;
-- `g_attributes` is the global list of src/symbol.cpp.
pub record Ast : Type 0 where
  pub lexer : Lexer
  pub node_count : ℕ
  pub function_stack : List Ty
  pub pending_attributes : List TokenType
  pub module_attributes : List TokenType
  pub can_initialize_stack : List Bool
  pub g_attributes : List TokenType
  pub scope_table : ScopeTable Entry
  pub collections : List (List ℕ)

-- How a call ends: it returns, throws a `FrontendError`, throws the `std::out_of_range` of a
-- bitset, does what the language leaves undefined, or has no fuel left.
pub data Run (A : Type 0) : Type 0 where
  returned : A → Ast → Run A
  threw : FrontendError → Run A
  out_of_range : Run A
  no_meaning : Run A
  no_fuel : Run A

abbrev pub Parser : Type 0 → Type 0
Parser A = Ast → Run A

abbrev pub continue : {A B : Type 0} → Run A → (A → Parser B) → Run B
continue no_fuel next = no_fuel
continue no_meaning next = no_meaning
continue out_of_range next = out_of_range
continue (threw error) next = threw error
continue (returned value s) next = next value s

infixl 5 ◌>>=◌ ◌>>◌
unfoldable pub ◌>>=◌ : {A B : Type 0} → Parser A → (A → Parser B) → Parser B
◌>>=◌ first next s = continue (first s) next

abbrev pub ◌>>◌ : {A B : Type 0} → Parser A → Parser B → Parser B
first >> next = first >>= λ _. next

unfoldable pub pure : {A : Type 0} → A → Parser A
pure value s = returned value s

unfoldable pub throw : {A : Type 0} → Token → Reason → Parser A
throw token reason s = threw (record { token = token; reason = reason })

unfoldable pub exhausted : {A : Type 0} → Parser A
exhausted s = no_fuel

unfoldable pub meaningless : {A : Type 0} → Parser A
meaningless s = no_meaning

unfoldable pub gets : {A : Type 0} → (Ast → A) → Parser A
gets field s = returned (field s) s

unfoldable pub modify : (Ast → Ast) → Parser (Unit {0})
modify change s = returned tt (change s)

abbrev pub with_lexer : {A : Type 0} → Outcome (A × Lexer) → Ast → Run A
with_lexer undefined s = no_meaning
with_lexer (thrown error) s = threw error
with_lexer (ok (value, l)) s = returned value (record s { lexer = l })

-- a method of `m_lexer`
unfoldable pub lexing : {A : Type 0} → (Lexer → Outcome (A × Lexer)) → Parser A
lexing method s = with_lexer (method s.lexer) s

abbrev pub with_table : Outcome (ScopeTable Entry) → Ast → Run (Unit {0})
with_table undefined s = no_meaning
with_table (thrown error) s = threw error
with_table (ok t) s = returned tt (record s { scope_table = t })

-- a method of the scope table
unfoldable pub scoping : (ScopeTable Entry → Outcome (ScopeTable Entry)) → Parser (Unit {0})
scoping method s = with_table (method s.scope_table) s

abbrev pub match : TokenType → Parser Bool
match type = lexing (Window.match type)

abbrev pub peek_is : TokenType → Parser Bool
peek_is type = lexing (Window.peek_is type)

abbrev pub peek : Parser Token
peek = lexing Window.peek

abbrev pub advance : Parser Token
advance = lexing Window.advance

abbrev pub expect : TokenType → Parser Token
expect type = lexing (Window.expect type)

abbrev pub peek_last : Parser Token
peek_last = gets (λ s. Window.peek_last s.lexer)

abbrev pub peek_last_is : TokenType → Parser Bool
peek_last_is type = gets (λ s. Window.peek_last_is type s.lexer)

-- `m_lexer.match(a) || m_lexer.match(b) || ...`
unfoldable pub match_one_of : List TokenType → Parser Bool
match_one_of [] = pure false
match_one_of (type ∷ types) =
    match type >>= λ found. if found then pure true else match_one_of types

-- `if (m_lexer.match(type)) { return ...; }`, one after the other
unfoldable pub first_match : {A : Type 0} → List (TokenType × Parser A) → Parser A → Parser A
first_match [] otherwise = otherwise
first_match ((type, body) ∷ cases) otherwise =
    match type >>= λ found. if found then body else first_match cases otherwise

-- `m_lexer.peek().type > low && m_lexer.peek().type < high`
unfoldable pub peek_between : TokenType → TokenType → Parser Bool
unfolding between
peek_between low high = peek >>= λ token. pure (between low high token.type)

-- The node that `new_node` makes, with its token.
unfoldable pub new_node : Parser Node
new_node s =
    returned (record { id = s.node_count; token = Window.peek_last s.lexer })
      (record s { node_count = suc s.node_count })

-- `emplace_back`, `pop_back`, `front` and `back` of a `std::vector`
abbrev pub pop_back : {A : Type 0} → List A → List A
pop_back [] = []
pop_back (x ∷ []) = []
pop_back (x ∷ y ∷ ys) = x ∷ pop_back (y ∷ ys)

abbrev pub back : {A : Type 0} → List A → Option A
back [] = none
back (x ∷ []) = some x
back (x ∷ y ∷ ys) = back (y ∷ ys)

abbrev pub push_initialize : Bool → Parser (Unit {0})
push_initialize flag =
    modify (λ s. record s { can_initialize_stack = s.can_initialize_stack ++ flag ∷ [] })

abbrev pub pop_initialize : Parser (Unit {0})
pop_initialize = modify (λ s. record s { can_initialize_stack = pop_back s.can_initialize_stack })

abbrev pub push_function : Ty → Parser (Unit {0})
push_function return_type =
    modify (λ s. record s { function_stack = s.function_stack ++ return_type ∷ [] })

abbrev pub pop_function : Parser (Unit {0})
pop_function = modify (λ s. record s { function_stack = pop_back s.function_stack })

-- An empty stack forbids nothing; else its first entry decides.
unfoldable pub front_allows : List Bool → Bool
front_allows [] = true
front_allows (front ∷ flags) = front

unfoldable pub can_initialize : Parser Bool
unfolding front_allows
can_initialize = gets (λ s. front_allows s.can_initialize_stack)

-- The return type of `get_current_fn()`, or nothing for the null pointer.
unfoldable pub get_current_fn : Parser (Option Ty)
get_current_fn = gets (λ s. back s.function_stack)

-- The functions of the parser that another one calls while a token is already read, and how many
-- rounds a loop may take.
pub record Calls : Type 0 where
  pub rounds : ℕ
  pub expression : Parser Expr
  pub parse_unary : Parser Expr
  pub parse_primary : Parser Expr
  -- with the mutability set of the reference to `TypeMeta`, the position and the override
  pub parse_type : MutSet → ℕ → Bool → Parser (Ty × MutSet)
  pub declaration : Parser AnyNode
  pub parse_if : Parser AnyNode

-- What the parser calls of the C++ library, at the text of a literal: `std::from_chars` into an
-- `i32` and an `f32` that are 0, by their bit patterns, and `std::atol` as a `u64`.
pub record StdLib : Type 0 where
  pub from_chars_i32 : Bytes → ℕ
  pub from_chars_f32 : Bytes → ℕ
  pub atol : Bytes → ℕ

-- A call between `emplace_back` and `pop_back` on one of the stacks.
unfoldable pub with_initialize : {A : Type 0} → Bool → Parser A → Parser A
with_initialize flag body = do push_initialize flag; value ← body; pop_initialize; pure value

unfoldable pub with_function : {A : Type 0} → Ty → Parser A → Parser A
with_function return_type body = do
  push_function return_type
  value ← body
  pop_function
  pure value
