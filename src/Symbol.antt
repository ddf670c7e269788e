-- ===== src/Symbol.antt =====
-- The attributes of symbols, src/symbol.cpp: slices of one global list of keywords.
use pars_c.TextReader.{u32}
use pars_c.Common.{
  ℕ, ◌<◌, Bool, false, ◌||◌, List, [], ◌∷◌, ◌++◌, Bytes, length, take, drop, ◌==◌, if◌then◌else◌,
  ◌≡◌, refl, arith, take-append_length, drop-append_length, append_assoc,
}
use pars_c.Token.{TokenType, type_eq}

-- `UINT32_MAX`
abbrev pub no_attributes : ℕ
no_attributes = 4294967295

-- src/symbol.hpp
pub record Symbol : Type 0 where
  pub name : Bytes
  pub attribute_id : ℕ
  pub attribute_count : ℕ

abbrev pub symbol_with : Bytes → ℕ → ℕ → Symbol
symbol_with name id count = record { name = name; attribute_id = id; attribute_count = count }

-- The id is the place of the first attribute in the list `g_attributes`, cut to 32 bits.
unfoldable pub set_attributes : List TokenType → List TokenType → ℕ × List TokenType
set_attributes attributes g_attributes = (u32 (length g_attributes), g_attributes ++ attributes)

unfoldable pub get_attributes : Symbol → List TokenType → List TokenType
get_attributes symbol g_attributes =
    if symbol.attribute_id == no_attributes
    then []
    else take symbol.attribute_count (drop symbol.attribute_id g_attributes)

abbrev any_type : TokenType → List TokenType → Bool
any_type type [] = false
any_type type (this_type ∷ types) = type_eq this_type type || any_type type types

unfoldable pub has_keyword_attribute : Symbol → TokenType → List TokenType → Bool
has_keyword_attribute symbol type g_attributes = any_type type (get_attributes symbol g_attributes)

-- A symbol that keeps the id and the count of its attributes gets them back, whatever attributes
-- are set later. It needs fewer attributes before it than 32 bits count,
-- and no more of its own than the 8 bits of the count hold.
pub get_attributes-set_attributes :
    (attributes before later : List TokenType) (name : Bytes)
    → length before < no_attributes
    → length attributes < 256
    → let (id, global) = set_attributes attributes before in
      get_attributes (symbol_with name id (length attributes)) (global ++ later) ≡ attributes
unfolding set_attributes get_attributes
get_attributes-set_attributes attributes before later name h k =
    let whole : u32 (length before) ≡ length before = omega arith in
    let id : (length before == no_attributes) ≡ false = ground arith in
    rw
      (
        whole,
        id,
        append_assoc before attributes later,
        drop-append_length before (attributes ++ later),
        take-append_length attributes later,
      )
      refl
