-- ===== src/Parser/Symbols.antt =====
-- Attributes and the symbols that they are bound to: `parse_attributes`, `collect_attributes` and
-- `get_symbol` of src/ast.cpp.
use pars_c.Common.{
  Bool, Bytes, List, [], false, if◌then◌else◌, length, not, suc, true, zero, ℕ, ◌%◌, ◌++◌, ◌+◌,
  ◌||◌, ◌∷◌,
}
use pars_c.Token.{TokenType, between}
use pars_c.Outcome.{invalid_attribute}
use pars_c.Symbol.{Symbol, no_attributes, set_attributes, symbol_with}
use pars_c.Parser.State.{
  Ast, Calls, Parser, advance, exhausted, expect, match, modify, peek_last, pure, returned, throw,
  ◌>>=◌, ◌>>◌,
}

abbrev pub is_attribute : TokenType → Bool
is_attribute type = between TokenType.attribute_keyword_start TokenType.attribute_keyword_end type

-- the lambda of `parse_attributes`, with what it puts into the buffer
unfoldable pub emplace_token : Parser TokenType
unfolding between
emplace_token = do
  advance
  token ← peek_last
  if is_attribute token.type then pure token.type else throw token (invalid_attribute token.lexeme)

-- its loop
unfoldable pub attribute_list : ℕ → Parser (List TokenType)
attribute_list zero = exhausted
attribute_list (suc n) = do
  type ← emplace_token
  more ← match TokenType.comma
  if more then (attribute_list n >>= λ types. pure (type ∷ types)) else pure (type ∷ [])

unfoldable pub attribute_buffer : ℕ → Bool → Parser (List TokenType)
attribute_buffer n false = emplace_token >>= λ type. pure (type ∷ [])
attribute_buffer n true = do types ← attribute_list n; expect TokenType.right_bracket; pure types

-- The attributes go to the end of the list of the module, or of the pending ones.
unfoldable pub keep_attributes : List TokenType → Bool → Ast → Ast
keep_attributes types true s = record s { module_attributes = s.module_attributes ++ types }
keep_attributes types false s = record s { pending_attributes = s.pending_attributes ++ types }

unfoldable pub parse_attributes : Calls → Parser (Unit {0})
parse_attributes calls = do
  bracket ← match TokenType.left_bracket
  types ← attribute_buffer calls.rounds bracket
  for_module ← match TokenType.colon
  modify (keep_attributes types for_module)

unfoldable pub collect_attributes : Calls → Parser (Unit {0})
collect_attributes calls =
    match TokenType.at >>= λ found. if found then parse_attributes calls else pure tt

abbrev pub is_empty : List TokenType → Bool
is_empty [] = true
is_empty (type ∷ types) = false

-- The symbol of a name, from the attributes that are there, and the lists afterwards.
unfoldable pub symbol_of : Bytes → Parser Symbol
symbol_of name s =
    let (id, pended) = set_attributes s.pending_attributes s.g_attributes in
    let (_, global) = set_attributes s.module_attributes pended in
    let count = length s.pending_attributes + length s.module_attributes in
    if not (is_empty s.pending_attributes) || not (is_empty s.module_attributes)
    then returned (symbol_with name id (count % 256))
        (record s { pending_attributes = []; g_attributes = global })
    else returned (symbol_with name no_attributes 0) s

unfoldable pub get_symbol : Parser Symbol
get_symbol = expect TokenType.identifier >>= λ token. symbol_of token.lexeme
