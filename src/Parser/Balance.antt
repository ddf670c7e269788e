-- ===== src/Parser/Balance.antt =====
-- The two stacks of the parser of src/ast.cpp and the attributes that were set before a call:
-- rules for each way to build a call.
pub mod Names
pub mod Primaries
pub mod Typings
pub mod Declared
pub mod Whole
use pars_c.Common.{
  Bool, List, [], ap, append-nil, append_assoc, arith, false, if◌then◌else◌, refl, sym, true, ◌++◌,
  ◌∙◌, ◌∷◌, ◌≡◌, ◌≤◌,
}
use pars_c.Token.{Token, TokenType}
use pars_c.Outcome.{Outcome, Reason, ok, thrown, undefined}
use pars_c.Lexer.State.{Lexer}
use pars_c.Syntax.{Ty}
use pars_c.ScopeTable.{ScopeTable}
use pars_c.Parser.State.{
  Ast, Entry, Parser, Run, can_initialize, continue, exhausted, first_match, get_current_fn, gets,
  lexing, match_one_of, meaningless, modify, new_node, no_fuel, no_meaning, out_of_range,
  peek_between, pop_back, pop_function, pop_initialize, pure, returned, scoping, threw, throw,
  with_function, with_initialize, with_lexer, with_table, ◌>>=◌,
}

pub record Kept (s s' : Ast) : Type 0 where
  pub initialize : s'.can_initialize_stack ≡ s.can_initialize_stack
  pub functions : s'.function_stack ≡ s.function_stack
  pub nodes : s.node_count ≤ s'.node_count
  pub attributes : (more : List TokenType) × (s'.g_attributes ≡ s.g_attributes ++ more)

pub Kept-refl : (s : Ast) → Kept s s
Kept-refl s = record {
  initialize = refl;
  functions = refl;
  nodes = omega arith;
  attributes = ([], sym (append-nil s.g_attributes));
}

pub Kept-trans : {s t u : Ast} → Kept s t → Kept t u → Kept s u
Kept-trans {s} h k =
    let (more, e) = h.attributes in
    let (later, f) = k.attributes in
    record {
      initialize = k.initialize ∙ h.initialize;
      functions = k.functions ∙ h.functions;
      nodes = let a = h.nodes in let b = k.nodes in omega arith;
      attributes = (more ++ later, rw (f, e) (append_assoc s.g_attributes more later));
    }

-- A state that differs in other fields only.
pub Kept-same :
    (s s' : Ast)
    → s'.can_initialize_stack ≡ s.can_initialize_stack
    → s'.function_stack ≡ s.function_stack
    → s'.node_count ≡ s.node_count
    → s'.g_attributes ≡ s.g_attributes
    → Kept s s'
Kept-same s s' h k n e = record {
  initialize = h;
  functions = k;
  nodes = omega arith;
  attributes = ([], e ∙ sym (append-nil s.g_attributes));
}

-- The state that a call ends in, if it returns.
abbrev pub KeptBy : {A : Type 0} → Ast → Run A → Type 0
KeptBy s (returned value s') = Kept s s'
KeptBy s (threw error) = Unit
KeptBy s out_of_range = Unit
KeptBy s no_meaning = Unit
KeptBy s no_fuel = Unit

pub record Keeping {A : Type 0} (m : Parser A) : Type 0 where
  pub at : (s : Ast) → KeptBy s (m s)

KeptBy-trans : {A : Type 0} {s t : Ast} → Kept s t → (r : Run A) → KeptBy t r → KeptBy s r
KeptBy-trans h (returned value u) k = Kept-trans h k
KeptBy-trans h (threw error) k = tt
KeptBy-trans h out_of_range k = tt
KeptBy-trans h no_meaning k = tt
KeptBy-trans h no_fuel k = tt

module _ {A : Type 0} where
  pub Keeping-pure : (value : A) → Keeping (pure value)
  unfolding pure
  Keeping-pure value = record { at = λ s. Kept-refl s }

  pub Keeping-throw : (token : Token) (reason : Reason) → Keeping (throw {A = A} token reason)
  unfolding throw
  Keeping-throw token reason = record { at = λ s. tt }

  pub Keeping-exhausted : Keeping (exhausted {A = A})
  unfolding exhausted
  Keeping-exhausted = record { at = λ s. tt }

  pub Keeping-meaningless : Keeping (meaningless {A = A})
  unfolding meaningless
  Keeping-meaningless = record { at = λ s. tt }

  pub Keeping-gets : (field : Ast → A) → Keeping (gets field)
  unfolding gets
  Keeping-gets field = record { at = λ s. Kept-refl s }

  with_lexer-Kept : (o : Outcome (A × Lexer)) (s : Ast) → KeptBy s (with_lexer o s)
  with_lexer-Kept undefined s = tt
  with_lexer-Kept (thrown error) s = tt
  with_lexer-Kept (ok (value, l)) s = record {
    initialize = refl;
    functions = refl;
    nodes = omega arith;
    attributes = ([], sym (append-nil s.g_attributes));
  }

  pub Keeping-lexing : (method : Lexer → Outcome (A × Lexer)) → Keeping (lexing method)
  unfolding lexing
  Keeping-lexing method = record { at = λ s. with_lexer-Kept (method s.lexer) s }

  pub Keeping-if :
      (b : Bool) {m n : Parser A} → Keeping m → Keeping n → Keeping (if b then m else n)
  Keeping-if true h k = h
  Keeping-if false h k = k

module _ {A B : Type 0} where
  continue-Kept :
      (s : Ast) (r : Run A) (next : A → Parser B)
      → KeptBy s r
      → ((value : A) → Keeping (next value))
      → KeptBy s (continue r next)
  continue-Kept s (returned value t) next h k = KeptBy-trans h (next value t) ((k value).at t)
  continue-Kept s (threw error) next h k = tt
  continue-Kept s out_of_range next h k = tt
  continue-Kept s no_meaning next h k = tt
  continue-Kept s no_fuel next h k = tt

  infixr 6 ◌▸◌
  pub ◌▸◌ :
      {m : Parser A} {next : A → Parser B}
      → Keeping m
      → ((value : A) → Keeping (next value))
      → Keeping (m >>= next)
  unfolding ◌>>=◌
  ◌▸◌ {m} {next} h k = record { at = λ s. continue-Kept s (m s) next (h.at s) k }

pub new_node-Keeping : Keeping new_node
unfolding new_node
new_node-Keeping = record {
  at = λ s. record {
    initialize = refl;
    functions = refl;
    nodes = omega arith;
    attributes = ([], sym (append-nil s.g_attributes));
  };
}

pub match_one_of-Keeping : (types : List TokenType) → Keeping (match_one_of types)
unfolding match_one_of
match_one_of-Keeping [] = Keeping-pure false
match_one_of-Keeping (type ∷ types) =
    Keeping-lexing _ ▸ λ found. Keeping-if found (Keeping-pure true) (match_one_of-Keeping types)

with_table-Kept : (o : Outcome (ScopeTable Entry)) (s : Ast) → KeptBy s (with_table o s)
with_table-Kept undefined s = tt
with_table-Kept (thrown error) s = tt
with_table-Kept (ok t) s = record {
  initialize = refl;
  functions = refl;
  nodes = omega arith;
  attributes = ([], sym (append-nil s.g_attributes));
}

pub scoping-Keeping :
    (method : ScopeTable Entry → Outcome (ScopeTable Entry)) → Keeping (scoping method)
unfolding scoping
scoping-Keeping method = record { at = λ s. with_table-Kept (method s.scope_table) s }

pub peek_between-Keeping : (low high : TokenType) → Keeping (peek_between low high)
unfolding peek_between
peek_between-Keeping low high = Keeping-lexing _ ▸ λ token. Keeping-pure _

pub can_initialize-Keeping : Keeping can_initialize
unfolding can_initialize
can_initialize-Keeping = Keeping-gets _

pub get_current_fn-Keeping : Keeping get_current_fn
unfolding get_current_fn
get_current_fn-Keeping = Keeping-gets _

-- The cases of `first_match`, and what follows them.
pub first_match-nil : {A : Type 0} (m : Parser A) → Keeping m → Keeping (first_match [] m)
unfolding first_match
first_match-nil m h = h

pub first_match-cons :
    {A : Type 0} (type : TokenType) (body m : Parser A) (cases : List (TokenType × Parser A))
    → Keeping body
    → Keeping (first_match cases m)
    → Keeping (first_match ((type, body) ∷ cases) m)
unfolding first_match
first_match-cons type body m cases h k = Keeping-lexing _ ▸ λ found. Keeping-if found h k

-- A change of the stacks that is undone behind the body.
pop_back-append : {A : Type 0} (xs : List A) (x : A) → pop_back (xs ++ x ∷ []) ≡ xs
pop_back-append [] x = refl
pop_back-append (y ∷ []) x = refl
pop_back-append (y ∷ z ∷ ys) x = ap (λ l. y ∷ l) (pop_back-append (z ∷ ys) x)

module _ {A : Type 0} (body : Parser A) (h : Keeping body) where
  popped_initialize :
      (flag : Bool) (s : Ast) (r : Run A)
      → KeptBy (record s { can_initialize_stack = s.can_initialize_stack ++ flag ∷ [] }) r
      → KeptBy s (continue r (λ value. pop_initialize >>= λ _. pure value))
  unfolding ◌>>=◌ pure modify
  popped_initialize flag s (returned value t) k = record {
    initialize = rw k.initialize (pop_back-append s.can_initialize_stack flag);
    functions = k.functions;
    nodes = k.nodes;
    attributes = k.attributes;
  }
  popped_initialize flag s (threw error) k = tt
  popped_initialize flag s out_of_range k = tt
  popped_initialize flag s no_meaning k = tt
  popped_initialize flag s no_fuel k = tt

  pub with_initialize-Keeping : (flag : Bool) → Keeping (with_initialize flag body)
  unfolding with_initialize ◌>>=◌ modify
  with_initialize-Keeping flag = record {
    at = λ s.
        let pushed = record s { can_initialize_stack = s.can_initialize_stack ++ flag ∷ [] } in
        popped_initialize flag s (body pushed) (h.at pushed);
  }

  popped_function :
      (type : Ty) (s : Ast) (r : Run A)
      → KeptBy (record s { function_stack = s.function_stack ++ type ∷ [] }) r
      → KeptBy s (continue r (λ value. pop_function >>= λ _. pure value))
  unfolding ◌>>=◌ pure modify
  popped_function type s (returned value t) k = record {
    initialize = k.initialize;
    functions = rw k.functions (pop_back-append s.function_stack type);
    nodes = k.nodes;
    attributes = k.attributes;
  }
  popped_function type s (threw error) k = tt
  popped_function type s out_of_range k = tt
  popped_function type s no_meaning k = tt
  popped_function type s no_fuel k = tt

  pub with_function-Keeping : (type : Ty) → Keeping (with_function type body)
  unfolding with_function ◌>>=◌ modify
  with_function-Keeping type = record {
    at = λ s.
        let pushed = record s { function_stack = s.function_stack ++ type ∷ [] } in
        popped_function type s (body pushed) (h.at pushed);
  }

-- Single steps, and tests on what is known.
pub ruleset steps_keep = (
  Keeping-pure, Keeping-throw, Keeping-exhausted, Keeping-meaningless, Keeping-gets, Keeping-lexing,
  Keeping-if, new_node-Keeping, match_one_of-Keeping, scoping-Keeping, peek_between-Keeping,
  can_initialize-Keeping, get_current_fn-Keeping,
)

pub ruleset cases_keep = (steps_keep, ◌▸◌, first_match-nil, first_match-cons)
