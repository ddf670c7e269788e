-- ===== src/Parser/Enums.antt =====
-- The variants that `parse_enum` of src/ast.cpp collects.
use pars_c.Common.{
  Bool, Bytes, List, Option, [], arith, false, if◌then◌else◌, lookup, none, refl, some, suc, true,
  zero, ℕ, ◌%◌, ◌==◌, ◌*◌, ◌+◌, ◌<◌, ◌∷◌, ◌≡◌, ◌≤◌,
}
use pars_c.Token.{Token, TokenType}
use pars_c.Outcome.{duplicate_variant}
use pars_c.Parser.Symbols.{get_symbol}
use pars_c.Symbol.{Symbol}
use pars_c.Syntax.{EnumVariant, Ty, enum}
use pars_c.Parser.State.{
  Ast, Calls, Parser, Run, StdLib, match, no_fuel, no_meaning, out_of_range, peek_last, pure,
  returned, threw, throw, ◌>>=◌,
}
use pars_c.Parser.Types.{fields_loop, parse_fields}
use pars_c.Parser.Declarations.{
  Variants, add_variant, is_there, no_default, no_variants, parse_enum, parse_variant,
  variant_value,
}
use pars_c.Parser.Knot.{calls_with}
use pars_c.Parser.Ends.Fuel.{Settles, parse_enum-EndsBy, settles}
use pars_c.Parser.Returns.{
  Post, Post-map, continue-Post, Yields, Yields-exhausted, Yields-if, Yields-pure, Yields-throw,
  then_lem, ◌▸◌,
}
use pars_c.Lexer.Progress.Weights.{IsSmall, weight}
use mathlib.Core.Path.{subst}

-- One more than `UINT64_MAX`.
abbrev limit : ℕ
limit = 18446744073709551616

-- The names differ, and the values fit into 64 bits.
abbrev pub AreVariants : List (Bytes × EnumVariant) → Type 0
AreVariants [] = Unit {0}
AreVariants ((name, variant) ∷ variants) =
    (lookup name variants ≡ none) × (variant.value < limit) × AreVariants variants

-- The type that `parse_enum` returns.
abbrev pub IsEnum : Ty → Type 0
IsEnum (enum node name default_value variants) = AreVariants variants
IsEnum _ = ⊥

-- What holds between the variants.
abbrev IsCounting : Variants → Type 0
IsCounting v = (v.highest_value < limit) × AreVariants v.variants

fields_loop-Yields :
    {S : Type 0} (P : S → Type 0) (n : ℕ) (round : S → Parser S) (state : S)
    → ((s : S) → P s → Yields P (round s))
    → P state
    → Yields P (fields_loop n round state)
unfolding fields_loop
fields_loop-Yields P zero round state h p = Yields-exhausted P
fields_loop-Yields P (suc n) round state h p = then_lem _ λ ended.
    Yields-if ended (Yields-pure P state p)
      (h state p ▸ λ state' p'. then_lem _ λ _. fields_loop-Yields P n round state' h p')

parse_fields-Yields :
    {S : Type 0} (P : S → Type 0) (n : ℕ) (round : S → Parser S) (state : S)
    → ((s : S) → P s → Yields P (round s))
    → P state
    → Yields P (parse_fields n round state)
unfolding parse_fields
parse_fields-Yields P n round state h p = then_lem _ λ _.
    fields_loop-Yields P n round state h p ▸ λ state' p'. then_lem _ λ _. Yields-pure P state' p'

-- The value of a variant: the one that is next, or the one that is written behind the name.
abbrev pub IsValue : StdLib → Bool → ℕ → ℕ → Type 0
IsValue std false highest_value value = value ≡ highest_value
IsValue std true highest_value value = (token : Token) × (value ≡ std.atol token.lexeme)

-- The name that is read at the state is new, and `v'` has one variant more than `v`, of this name.
pub record Adds (std : StdLib) (v : Variants) (s : Ast) (v' : Variants) : Type 0 where
  pub name : Symbol
  pub behind : Ast
  pub read : get_symbol s ≡ returned name behind
  pub fresh : lookup name.name v.variants ≡ none
  pub has_value : Bool
  pub matched : Ast
  pub equal_read : match TokenType.equal behind ≡ returned has_value matched
  pub value : ℕ
  pub value_is : IsValue std has_value v.highest_value value
  pub added : v'.variants ≡ (name.name, record { symbol = name; value = value }) ∷ v.variants
  pub next_is : v'.highest_value ≡ (value + 1) % limit
  pub default_is :
      v'.default_value ≡ (if v.default_value == no_default then value else v.default_value)

returned-Post : {A : Type 0} (r : Run A) → Post (λ value s. r ≡ returned value s) r
returned-Post (returned value s) = refl
returned-Post (threw error) = tt
returned-Post out_of_range = tt
returned-Post no_meaning = tt
returned-Post no_fuel = tt

module _ (std : StdLib) where
  variant_value-IsValue :
      (has_value : Bool) (highest_value : ℕ)
      → Yields (IsValue std has_value highest_value) (variant_value std has_value highest_value)
  unfolding variant_value
  variant_value-IsValue false highest_value = Yields-pure _ _ refl
  variant_value-IsValue true highest_value = then_lem _ λ token. Yields-pure _ _ (token, refl)

  add_variant-Adds :
      (v : Variants) (s behind matched : Ast) (name : Symbol) (has_value : Bool) (value : ℕ)
      (found : Option EnumVariant)
      → lookup name.name v.variants ≡ found
      → get_symbol s ≡ returned name behind
      → match TokenType.equal behind ≡ returned has_value matched
      → IsValue std has_value v.highest_value value
      → Yields (Adds std v s) (
          if is_there found
          then (peek_last >>= λ token. throw token duplicate_variant)
          else pure (add_variant name value v))
  unfolding add_variant
  add_variant-Adds v s behind matched name has_value value none e p q k = Yields-pure _ _ (record {
    name = name;
    behind = behind;
    read = p;
    fresh = e;
    has_value = has_value;
    matched = matched;
    equal_read = q;
    value = value;
    value_is = k;
    added = rw e;
    next_is = refl;
    default_is = refl;
  })
  add_variant-Adds v s behind matched name has_value value (some variant) e p q k =
      then_lem _ λ token. Yields-throw _ token _

  parse_variant-Post :
      (v : Variants) (s : Ast) → Post (λ v' s'. Adds std v s v') (parse_variant std v s)
  unfolding parse_variant ◌>>=◌
  parse_variant-Post v s =
      continue-Post _ _ (get_symbol s) _ (returned-Post (get_symbol s)) λ name behind p.
        continue-Post _ _ (match TokenType.equal behind) _ (returned-Post _) λ has_value matched q.
          continue-Post _ _ (variant_value std has_value v.highest_value matched) _
            ((variant_value-IsValue has_value v.highest_value).at matched)
            λ value t k.
              (add_variant-Adds v s behind matched name has_value value _ refl p q k).at t

module _ (std : StdLib) (fits : (text : Bytes) → std.atol text < limit) where
  value-lt :
      (text_of : Bool) (highest_value value : ℕ)
      → highest_value < limit
      → IsValue std text_of highest_value value
      → value < limit
  value-lt false highest_value value h e = rw e h
  value-lt true highest_value value h (token, e) = rw e (fits token.lexeme)

  parse_variant-IsCounting : (v : Variants) → IsCounting v → Yields IsCounting (parse_variant std v)
  parse_variant-IsCounting v h = record {
    at = λ s. Post-map (Adds std v s) IsCounting _ (parse_variant-Post std v s) λ v' a. (
      rw a.next_is (omega arith),
      rw a.added (a.fresh, value-lt a.has_value v.highest_value a.value h.0 a.value_is, h.1),
    );
  }

  parse_enum-IsEnum : (c : Calls) → Yields IsEnum (parse_enum c std)
  unfolding parse_enum
  parse_enum-IsEnum c = then_lem _ λ node. then_lem _ λ name.
      parse_fields-Yields IsCounting c.rounds (parse_variant std) no_variants
        parse_variant-IsCounting (omega arith, tt)
      ▸ λ v p. then_lem _ λ _. Yields-pure _ _ p.1

  -- Where `std::atol` gives values of 64 bits, in a text of less than 2^32 bytes and with fuel for
  -- twice the weight of the lexer and two, `parse_enum` does not run out of fuel, and what it returns
  -- is an enumeration whose variants have names that differ, and values of 64 bits.
  pub parse_enum-AreVariants :
      (fuel : ℕ) (s : Ast)
      → IsSmall s.lexer
      → 2 * weight s.lexer + 2 ≤ fuel
      → Settles (λ type s'. IsEnum type) (parse_enum (calls_with std fuel) std s)
  parse_enum-AreVariants fuel s small enough =
      settles (weight s.lexer) _ _ _ (parse_enum-EndsBy std fuel s small enough) λ type s' e.
        subst (Post (λ type t. IsEnum type)) e ((parse_enum-IsEnum (calls_with std fuel)).at s)
