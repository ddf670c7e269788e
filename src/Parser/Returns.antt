-- ===== src/Parser/Returns.antt =====
-- What a call of the parser returns, if it returns: one rule for each way to build a call.
use pars_c.Common.{Bool, List, [], false, if◌then◌else◌, true, ◌∷◌}
use pars_c.Token.{Token, TokenType}
use pars_c.Outcome.{Reason}
use pars_c.Parser.State.{
  Ast, Parser, Run, continue, exhausted, first_match, no_fuel, no_meaning, out_of_range, pure,
  returned, threw, throw, ◌>>=◌,
}

-- What holds of the value and the state that a call returns, if it returns.
abbrev pub Post : {A : Type 0} → (A → Ast → Type 0) → Run A → Type 0
Post P (returned value s) = P value s
Post P (threw error) = Unit
Post P out_of_range = Unit
Post P no_meaning = Unit
Post P no_fuel = Unit

pub continue-Post :
    {A B : Type 0} (P : A → Ast → Type 0) (Q : B → Ast → Type 0) (r : Run A) (next : A → Parser B)
    → Post P r
    → ((value : A) (s : Ast) → P value s → Post Q (next value s))
    → Post Q (continue r next)
continue-Post P Q (returned value s) next h k = k value s h
continue-Post P Q (threw error) next h k = tt
continue-Post P Q out_of_range next h k = tt
continue-Post P Q no_meaning next h k = tt
continue-Post P Q no_fuel next h k = tt

pub Post-any : {A : Type 0} (r : Run A) → Post (λ value s. Unit {0}) r
Post-any (returned value s) = tt
Post-any (threw error) = tt
Post-any out_of_range = tt
Post-any no_meaning = tt
Post-any no_fuel = tt

pub Post-map :
    {A : Type 0} (P Q : A → Type 0) (r : Run A)
    → Post (λ value s. P value) r
    → ((value : A) → P value → Q value)
    → Post (λ value s. Q value) r
Post-map P Q (returned value s) h k = k value h
Post-map P Q (threw error) h k = tt
Post-map P Q out_of_range h k = tt
Post-map P Q no_meaning h k = tt
Post-map P Q no_fuel h k = tt

-- Every value that the call returns has the property.
pub record Yields {A : Type 0} (P : A → Type 0) (m : Parser A) : Type 0 where
  pub at : (s : Ast) → Post (λ value s'. P value) (m s)

module _ {A : Type 0} (P : A → Type 0) where
  pub Yields-pure : (value : A) → P value → Yields P (pure value)
  unfolding pure
  Yields-pure value h = record { at = λ s. h }

  pub Yields-throw : (token : Token) (reason : Reason) → Yields P (throw token reason)
  unfolding throw
  Yields-throw token reason = record { at = λ s. tt }

  pub Yields-exhausted : Yields P exhausted
  unfolding exhausted
  Yields-exhausted = record { at = λ s. tt }

module _ {A : Type 0} {P : A → Type 0} where
  pub Yields-if :
      (b : Bool) {m n : Parser A} → Yields P m → Yields P n → Yields P (if b then m else n)
  Yields-if true h k = h
  Yields-if false h k = k

  pub first_match-nil : (m : Parser A) → Yields P m → Yields P (first_match [] m)
  unfolding first_match
  first_match-nil m h = h

module _ {A B : Type 0} {P : A → Type 0} {Q : B → Type 0} where
  infixr 6 ◌▸◌
  pub ◌▸◌ :
      {m : Parser A} {next : A → Parser B}
      → Yields P m
      → ((value : A) → P value → Yields Q (next value))
      → Yields Q (m >>= next)
  unfolding ◌>>=◌
  ◌▸◌ {m} {next} h k = record {
    at = λ s. continue-Post _ _ (m s) next (h.at s) (λ value s' p. (k value p).at s');
  }

-- The same, where nothing is known of the first call.
pub then_lem :
    {A B : Type 0} {Q : B → Type 0} (m : Parser A) {next : A → Parser B}
    → ((value : A) → Yields Q (next value))
    → Yields Q (m >>= next)
unfolding ◌>>=◌
then_lem {Q} m {next} k = record {
  at = λ s. continue-Post _ _ (m s) next (Post-any (m s)) (λ value s' p. (k value).at s');
}

pub first_match-cons :
    {A : Type 0} {P : A → Type 0} (type : TokenType) (body m : Parser A)
    (cases : List (TokenType × Parser A))
    → Yields P body
    → Yields P (first_match cases m)
    → Yields P (first_match ((type, body) ∷ cases) m)
unfolding first_match
first_match-cons type body m cases h k = then_lem _ (λ found. Yields-if found h k)
