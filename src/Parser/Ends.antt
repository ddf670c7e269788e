-- ===== src/Parser/Ends.antt =====
-- Calls of the parser, followed by what they take of the weight of the lexer, against the fuel
-- that they have: rules for each way to build a call.
pub mod Steps
pub mod Names
pub mod Primaries
pub mod Suffixes
pub mod Typings
pub mod Declared
pub mod Whole
pub mod Fuel
use pars_c.Common.{
  Bool, Bool-cases, arith, false, if◌then◌else◌, inl, inr, some, true, ℕ, ◌+◌, ◌<◌, ◌≡◌, ◌≤◌,
}
use pars_c.Token.{Token, TokenType}
use pars_c.Outcome.{Always, Always-map, Outcome, Reason, ok, thrown, undefined}
use pars_c.Lexer.State.{Lexer}
use pars_c.Parser.State.{
  Ast, Parser, Run, advance, continue, expect, gets, lexing, match, meaningless, no_fuel,
  no_meaning, out_of_range, peek, peek_is, pure, returned, threw, throw, with_lexer, ◌>>=◌,
}
use mathlib.Core.Path.{subst}
use mathlib.Core.Bool.{true≢false}
use pars_c.Lexer.Window
use pars_c.Lexer.Progress.Tokens.{cost}
use pars_c.Lexer.Progress.Weights.{
  IsSmall, IsSmall-Takes, Takes, Takes-less, held, advance-Takes, expect-Takes, match-Takes,
  match_both-Takes, match_next-Takes, peek-Takes, peek_is-Takes, taken, weight,
}

-- What is left of a weight of `w`, less one if the call took a token.
pub record Left (took : Bool) (w : ℕ) (l : Lexer) : Type 0 where
  pub small : IsSmall l
  pub within : weight l + taken took 1 ≤ w

-- A call that ends, with the state that it ends in, if it returns.
abbrev pub EndsBy : {A : Type 0} → (A → Bool) → ℕ → Run A → Type 0
EndsBy takes w (returned value s) = Left (takes value) w s.lexer
EndsBy takes w (threw error) = Unit
EndsBy takes w out_of_range = Unit
EndsBy takes w no_meaning = Unit
EndsBy takes w no_fuel = ⊥

-- At a weight of `w` at most the call ends; `takes` tells of which values it took a token.
pub record Ends {A : Type 0} (takes : A → Bool) (w : ℕ) (m : Parser A) : Type 0 where
  pub at : (s : Ast) → Left false w s.lexer → EndsBy takes w (m s)

abbrev pub takes_some : {A : Type 0} → A → Bool
takes_some value = true

abbrev pub takes_any : {A : Type 0} → A → Bool
takes_any value = false

Left-less : {took : Bool} {w : ℕ} {l : Lexer} → Left took w l → Left false w l
Left-less h = record { small = h.small; within = let k = h.within in omega arith }

Left-took : {took : Bool} {w : ℕ} {l : Lexer} → took ≡ true → Left took w l → Left true w l
Left-took {took} {w} {l} e h = subst (λ b. Left b w l) e h

-- Every call that took a token ends at a lower weight.
Left-lower : {v w : ℕ} {l : Lexer} (took : Bool) → v < w → Left false v l → Left took w l
Left-lower true lt h = record { small = h.small; within = let k = h.within in omega arith }
Left-lower false lt h = record { small = h.small; within = let k = h.within in omega arith }

pub Left-own : {w : ℕ} {l : Lexer} → Left true w l → Left false (weight l) l × (weight l < w)
Left-own h = (record { small = h.small; within = omega arith }, let k = h.within in omega arith)

module _ {A : Type 0} where
  pub Ends-pure : {w : ℕ} (value : A) → Ends takes_any w (pure value)
  unfolding pure
  Ends-pure value = record { at = λ s h. h }

  pub Ends-throw :
      {w : ℕ} (takes : A → Bool) (token : Token) (reason : Reason)
      → Ends takes w (throw token reason)
  unfolding throw
  Ends-throw takes token reason = record { at = λ s h. tt }

  pub Ends-meaningless : {w : ℕ} (takes : A → Bool) → Ends takes w meaningless
  unfolding meaningless
  Ends-meaningless takes = record { at = λ s h. tt }

  pub Ends-gets : {w : ℕ} (field : Ast → A) → Ends takes_any w (gets field)
  unfolding gets
  Ends-gets field = record { at = λ s h. h }

  pub Ends-if :
      {w : ℕ} {takes : A → Bool} (b : Bool) {m n : Parser A}
      → Ends takes w m
      → Ends takes w n
      → Ends takes w (if b then m else n)
  Ends-if true h k = h
  Ends-if false h k = k

  Left-any : (w : ℕ) (takes : A → Bool) (r : Run A) → EndsBy takes w r → EndsBy takes_any w r
  Left-any w takes (returned value s) h = Left-less h
  Left-any w takes (threw error) h = tt
  Left-any w takes out_of_range h = tt
  Left-any w takes no_meaning h = tt
  Left-any w takes no_fuel h = h

  -- A call that takes a token need not be known to.
  pub loosely : {w : ℕ} {takes : A → Bool} {m : Parser A} → Ends takes w m → Ends takes_any w m
  loosely {w} {takes} {m} h = record { at = λ s k. Left-any w takes (m s) (h.at s k) }

pub EndsBy-lower :
    {B : Type 0} (v w : ℕ) (takes : B → Bool) (r : Run B)
    → v < w
    → EndsBy takes_any v r
    → EndsBy takes w r
EndsBy-lower v w takes (returned value s) lt h = Left-lower (takes value) lt h
EndsBy-lower v w takes (threw error) lt h = tt
EndsBy-lower v w takes out_of_range lt h = tt
EndsBy-lower v w takes no_meaning lt h = tt
EndsBy-lower v w takes no_fuel lt h = h

module _ {A B : Type 0} where
  pub continue-Ends :
      (w : ℕ) (first : A → Bool) (takes : B → Bool) (r : Run A) (next : A → Parser B)
      → EndsBy first w r
      → ((value : A) (s : Ast) → Left (first value) w s.lexer → EndsBy takes w (next value s))
      → EndsBy takes w (continue r next)
  continue-Ends w first takes (returned value s) next h k = k value s h
  continue-Ends w first takes (threw error) next h k = tt
  continue-Ends w first takes out_of_range next h k = tt
  continue-Ends w first takes no_meaning next h k = tt
  continue-Ends w first takes no_fuel next h k = h

  infixr 6 ◌▸◌ ◌▹◌
  -- One call behind another.
  pub ◌▸◌ :
      {w : ℕ} {first : A → Bool} {takes : B → Bool} {m : Parser A} {next : A → Parser B}
      → Ends first w m
      → ((value : A) → Ends takes w (next value))
      → Ends takes w (m >>= next)
  unfolding ◌>>=◌
  ◌▸◌ {w} {first} {takes} {m} {next} h k = record {
    at = λ s l.
        continue-Ends w first takes (m s) next (h.at s l)
          (λ value t p. (k value).at t (Left-less p));
  }

  -- What follows a call by its value: a lower weight, if it took a token.
  pub took_or :
      {w : ℕ} {first : A → Bool} {takes : B → Bool} {m : Parser A} {next : A → Parser B}
      → Ends first w m
      → ((value : A) (v : ℕ) → v < w → first value ≡ true → Ends takes_any v (next value))
      → ((value : A) → first value ≡ false → Ends takes w (next value))
      → Ends takes w (m >>= next)
  unfolding ◌>>=◌
  took_or {w} {first} {takes} {m} {next} h k n = record {
    at = λ s l. continue-Ends w first takes (m s) next (h.at s l) (λ value t p.
        elim (Bool-cases (first value)) [
          | inl e ↦
              let (own, lt) = Left-own (Left-took e p) in
              EndsBy-lower (weight t.lexer) w takes (next value t) lt
                ((k value (weight t.lexer) lt e).at t own)
          | inr e ↦ (n value e).at t (Left-less p)
        ]);
  }

  -- A call that took a token.
  pub ◌▹◌ :
      {w : ℕ} {takes : B → Bool} {m : Parser A} {next : A → Parser B}
      → Ends takes_some w m
      → ((value : A) (v : ℕ) → v < w → Ends takes_any v (next value))
      → Ends takes w (m >>= next)
  h ▹ k = took_or h (λ value v lt e. k value v lt) (λ value e. absurd (true≢false e))

module _ {A : Type 0} where
  with_lexer-Ends :
      (w amount : ℕ) (takes : A → Bool) (s : Ast) (o : Outcome (A × Lexer))
      → Left false w s.lexer
      → Always (λ x. Takes s.lexer (taken (takes x.0) 1) x.1) o
      → EndsBy takes w (with_lexer o s)
  with_lexer-Ends w amount takes s undefined h k = tt
  with_lexer-Ends w amount takes s (thrown error) h k = tt
  with_lexer-Ends w amount takes s (ok (value, l)) h k = record {
    small = IsSmall-Takes h.small k;
    within = let a = h.within in let b = k.less in omega arith;
  }

  lexing-Ends :
      {w : ℕ} (takes : A → Bool) (method : Lexer → Outcome (A × Lexer))
      → ((l : Lexer) → IsSmall l → Always (λ x. Takes l (taken (takes x.0) 1) x.1) (method l))
      → Ends takes w (lexing method)
  unfolding lexing
  lexing-Ends {w} takes method h = record {
    at = λ s l. with_lexer-Ends w 0 takes s (method s.lexer) l (h s.lexer l.small);
  }

-- The methods of the lexer. The type that is matched or expected is not that of the end.
pub match-Ends : {w : ℕ} (type : TokenType) → cost type ≡ 1 → Ends (λ found. found) w (match type)
match-Ends type e =
    lexing-Ends (λ found. found) (Window.match type)
      (λ l small.
        subst (λ c. Always (λ x. Takes l (taken x.0 c) x.1) (Window.match type l)) e
          (match-Takes type l small))

pub expect-Ends : {w : ℕ} (type : TokenType) → cost type ≡ 1 → Ends takes_some w (expect type)
expect-Ends type e = lexing-Ends takes_some (Window.expect type) (λ l small.
    subst (λ c. Always (λ x. Takes l c x.1) (Window.expect type l)) e (expect-Takes type l small))

pub match_both-Ends :
    {w : ℕ} (a b : TokenType)
    → cost a ≡ 1
    → Ends (λ found. found) w (lexing (Window.match_both a b))
match_both-Ends a b e =
    lexing-Ends (λ found. found) (Window.match_both a b)
      (λ l small.
        subst (λ c. Always (λ x. Takes l (taken x.0 c) x.1) (Window.match_both a b l)) e
          (match_both-Takes a b l small))

pub peek-Ends : {w : ℕ} → Ends takes_any w peek
peek-Ends = lexing-Ends takes_any Window.peek (λ l small.
    Always-map (λ x. Takes l 0 x.1 × (x.1.current_token ≡ some x.0)) _ _ (peek-Takes l small)
      (λ x h. h.0))

pub peek_is-Ends : {w : ℕ} (type : TokenType) → Ends takes_any w (peek_is type)
peek_is-Ends type = lexing-Ends takes_any (Window.peek_is type) (λ l small.
    Always-map (λ x. Takes l 0 x.1 × (x.0 ≡ true → held x.1.current_token ≡ cost type)) _ _
      (peek_is-Takes type l small) (λ x h. h.0))

pub advance-Ends : {w : ℕ} → Ends takes_any w advance
advance-Ends =
    lexing-Ends takes_any Window.advance
      (λ l small. Always-map _ _ _ (advance-Takes l small) (λ x h. Takes-less 0 (omega arith) h.0))

pub match_next-Ends :
    {w : ℕ} (type : TokenType) → Ends takes_any w (lexing (Window.match_next type))
match_next-Ends type = lexing-Ends takes_any (Window.match_next type) (match_next-Takes type)
