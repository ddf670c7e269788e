-- ===== src/Parser/Balance/Names.antt =====
-- The stacks and the attributes under the functions of src/ast.cpp on attributes and symbols.
use pars_c.Common.{
  Bool, Bool-cases, Bytes, List, append_assoc, arith, false, inl, inr, not, refl, suc, true, zero,
  ℕ, ◌++◌, ◌||◌,
}
use pars_c.Token.{TokenType}
use pars_c.Symbol.{set_attributes}
use pars_c.Parser.State.{Calls, modify}
use pars_c.Parser.Symbols.{
  attribute_buffer, attribute_list, collect_attributes, emplace_token, get_symbol, is_empty,
  keep_attributes, parse_attributes, symbol_of,
}
use pars_c.Parser.Balance.{
  Keeping, Keeping-exhausted, Keeping-gets, Keeping-if, Keeping-lexing, Keeping-pure, Keeping-throw,
  Kept-refl, Kept-same, ◌▸◌,
}

emplace_token-Keeping : Keeping emplace_token
unfolding emplace_token
emplace_token-Keeping = Keeping-lexing _ ▸ λ _.
    Keeping-gets _ ▸ λ token. Keeping-if _ (Keeping-pure _) (Keeping-throw _ _)

attribute_list-Keeping : (n : ℕ) → Keeping (attribute_list n)
unfolding attribute_list
attribute_list-Keeping zero = Keeping-exhausted
attribute_list-Keeping (suc n) = emplace_token-Keeping ▸ λ type. Keeping-lexing _ ▸ λ more.
    Keeping-if more (attribute_list-Keeping n ▸ λ types. Keeping-pure _) (Keeping-pure _)

attribute_buffer-Keeping : (n : ℕ) (bracket : Bool) → Keeping (attribute_buffer n bracket)
unfolding attribute_buffer
attribute_buffer-Keeping n false = emplace_token-Keeping ▸ λ type. Keeping-pure _
attribute_buffer-Keeping n true =
    attribute_list-Keeping n ▸ λ types. Keeping-lexing _ ▸ λ _. Keeping-pure _

keep_attributes-Keeping :
    (types : List TokenType) (for_module : Bool)
    → Keeping (modify (keep_attributes types for_module))
unfolding modify keep_attributes
keep_attributes-Keeping types true = record { at = λ s. Kept-same s _ refl refl refl refl }
keep_attributes-Keeping types false = record { at = λ s. Kept-same s _ refl refl refl refl }

pub collect_attributes-Keeping : (c : Calls) → Keeping (collect_attributes c)
unfolding collect_attributes parse_attributes
collect_attributes-Keeping c = Keeping-lexing _ ▸ λ found.
    Keeping-if found
      (Keeping-lexing _ ▸ λ bracket. attribute_buffer-Keeping c.rounds bracket ▸ λ types.
        Keeping-lexing _ ▸ λ for_module. keep_attributes-Keeping types for_module)
      (Keeping-pure _)

symbol_of-Keeping : (name : Bytes) → Keeping (symbol_of name)
unfolding symbol_of set_attributes
symbol_of-Keeping name = record {
  at = λ s.
      elim (Bool-cases
        (not (is_empty s.pending_attributes) || not (is_empty s.module_attributes))) [
          | inl some_set ↦ rw some_set (record {
            initialize = refl;
            functions = refl;
            nodes = omega arith;
            attributes = (
              s.pending_attributes ++ s.module_attributes,
              append_assoc s.g_attributes s.pending_attributes s.module_attributes,
            );
          })
          | inr none_set ↦ rw none_set (Kept-refl s)
        ];
}

pub get_symbol-Keeping : Keeping get_symbol
unfolding get_symbol
get_symbol-Keeping = Keeping-lexing _ ▸ λ token. symbol_of-Keeping token.lexeme
