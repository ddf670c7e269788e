-- ===== src/Parser/Ends/Steps.antt =====
-- The fuel of single steps of the parser, and of tests on the current token.
use pars_c.Common.{
  Bool, List, [], false, if◌then◌else◌, refl, sym, true, ℕ, ◌+◌, ◌<◌, ◌∷◌, ◌≡◌, ◌≤◌,
}
use pars_c.Token.{TokenType}
use pars_c.Outcome.{Outcome, ok, thrown, undefined}
use pars_c.Syntax.{MutSet, Ty, null_type}
use pars_c.ScopeTable.{ScopeTable}
use pars_c.Parser.State.{
  Ast, Calls, Entry, Parser, can_initialize, first_match, get_current_fn, match, match_one_of,
  modify, new_node, peek_between, pure, scoping, with_function, with_initialize, with_table, ◌>>=◌,
}
use pars_c.Parser.Ends.{
  Ends, Ends-gets, Ends-pure, EndsBy, Left, continue-Ends, match-Ends, peek-Ends, takes_any,
  takes_some, took_or, ◌▸◌,
}
use mathlib.Core.Path.{subst}
use mathlib.Core.Bool.{true≢false}
use pars_c.Lexer.Progress.Tokens.{cost}

-- None of the types is that of the end.
abbrev pub Costs : List TokenType → Type 0
Costs [] = Unit
Costs (type ∷ types) = (cost type ≡ 1) × Costs types

pub modify-Ends :
    {w : ℕ} (change : Ast → Ast)
    → ((s : Ast) → (change s).lexer ≡ s.lexer)
    → Ends takes_any w (modify change)
unfolding modify
modify-Ends {w} change same = record { at = λ s h. subst (Left false w) (sym (same s)) h }

pub new_node-Ends : {w : ℕ} → Ends takes_any w new_node
unfolding new_node
new_node-Ends = record { at = λ s h. h }

pub peek_between-Ends : {w : ℕ} (low high : TokenType) → Ends takes_any w (peek_between low high)
unfolding peek_between
peek_between-Ends low high = peek-Ends ▸ λ token. Ends-pure _

pub can_initialize-Ends : {w : ℕ} → Ends takes_any w can_initialize
unfolding can_initialize
can_initialize-Ends = Ends-gets _

pub get_current_fn-Ends : {w : ℕ} → Ends takes_any w get_current_fn
unfolding get_current_fn
get_current_fn-Ends = Ends-gets _

with_table-Ends :
    (w : ℕ) (o : Outcome (ScopeTable Entry)) (s : Ast)
    → Left false w s.lexer
    → EndsBy takes_any w (with_table o s)
with_table-Ends w undefined s h = tt
with_table-Ends w (thrown error) s h = tt
with_table-Ends w (ok t) s h = h

pub scoping-Ends :
    {w : ℕ} (method : ScopeTable Entry → Outcome (ScopeTable Entry))
    → Ends takes_any w (scoping method)
unfolding scoping
scoping-Ends {w} method = record { at = λ s h. with_table-Ends w (method s.scope_table) s h }

module _ {B : Type 0} {w : ℕ} {takes : B → Bool} where
  -- What follows a test by its answer: a lower weight, if it took a token.
  pub found_then :
      {m : Parser Bool} (next : Bool → Parser B)
      → Ends (λ found. found) w m
      → ((v : ℕ) → v < w → Ends takes_any v (next true))
      → Ends takes w (next false)
      → Ends takes w (m >>= next)
  found_then {m} next h k n = took_or h when unless
    where
      when : (found : Bool) (v : ℕ) → v < w → found ≡ true → Ends takes_any v (next found)
      when true v lt e = k v lt
      when false v lt e = absurd (true≢false (sym e))

      unless : (found : Bool) → found ≡ false → Ends takes w (next found)
      unless false e = n
      unless true e = absurd (true≢false e)

  pub match_then :
      (type : TokenType) (next : Bool → Parser B)
      → cost type ≡ 1
      → ((v : ℕ) → v < w → Ends takes_any v (next true))
      → Ends takes w (next false)
      → Ends takes w (match type >>= next)
  match_then type next e = found_then next (match-Ends type e)

  -- The cases of `first_match`, and what follows them.
  pub first_match-nil : (m : Parser B) → Ends takes w m → Ends takes w (first_match [] m)
  unfolding first_match
  first_match-nil m h = h

  pub first_match-cons :
      (type : TokenType) (body m : Parser B) (cases : List (TokenType × Parser B))
      → cost type ≡ 1
      → ((v : ℕ) → v < w → Ends takes_any v body)
      → Ends takes w (first_match cases m)
      → Ends takes w (first_match ((type, body) ∷ cases) m)
  unfolding first_match
  first_match-cons type body m cases e h k = match_then type _ e h k

pub match_one_of-Ends :
    {w : ℕ} (types : List TokenType) → Costs types → Ends (λ found. found) w (match_one_of types)
unfolding match_one_of pure ◌>>=◌
match_one_of-Ends [] e = record { at = λ s h. h }
match_one_of-Ends {w} (type ∷ types) e = record {
  at = λ s l.
      continue-Ends w (λ found. found) (λ found. found) (match type s) _
        ((match-Ends type e.0).at s l) (either (match_one_of-Ends types e.1));
}
  where
    either :
        Ends (λ found. found) w (match_one_of types)
        → (found : Bool) (t : Ast) → Left found w t.lexer
        → EndsBy (λ b. b) w ((if found then pure true else match_one_of types) t)
    either k true t h = h
    either k false t h = k.at t h

pub with_initialize-Ends :
    {A : Type 0} {w : ℕ} {takes : A → Bool} (flag : Bool) {body : Parser A}
    → Ends takes w body
    → Ends takes_any w (with_initialize flag body)
unfolding with_initialize
with_initialize-Ends flag h =
    modify-Ends _ (λ s. refl) ▸ λ _. h ▸ λ value. modify-Ends _ (λ s. refl) ▸ λ _. Ends-pure value

pub with_function-Ends :
    {A : Type 0} {w : ℕ} {takes : A → Bool} (type : Ty) {body : Parser A}
    → Ends takes w body
    → Ends takes_any w (with_function type body)
unfolding with_function
with_function-Ends type h =
    modify-Ends _ (λ s. refl) ▸ λ _. h ▸ λ value. modify-Ends _ (λ s. refl) ▸ λ _. Ends-pure value

abbrev pub typed : Ty × MutSet → Bool
typed (null_type, mut_set) = false
typed (type, mut_set) = true

-- The functions that are called in turn end at every weight below `n`.
pub record Good (n : ℕ) (c : Calls) : Type 0 where
  pub rounds : n ≤ c.rounds
  pub expression : (w : ℕ) → w < n → Ends takes_some w c.expression
  pub parse_unary : (w : ℕ) → w < n → Ends takes_some w c.parse_unary
  pub parse_primary : (w : ℕ) → w < n → Ends takes_some w c.parse_primary
  pub parse_type :
      (w : ℕ)
      → w < n
      → (mut_set : MutSet) (position : ℕ) (imut_override : Bool)
      → Ends typed w (c.parse_type mut_set position imut_override)
  pub declaration : (w : ℕ) → w < n → Ends takes_some w c.declaration
  pub parse_if : (w : ℕ) → w + 1 < n → Ends takes_any w c.parse_if
