-- ===== src/Tests/Parsing.antt =====
-- Texts put through the parser.
use pars_c.Common.{Bytes, [], arith, bytes_eq, false, refl, true, while, ◌++◌, ◌∷◌, ◌≡◌}
use pars_c.Token.{TokenType, between, type_eq}
use pars_c.Lexer.State.{build_error, build_token, build_token2, build_token3, build_token_with}
use pars_c.Symbol.{
  no_attributes, symbol_with, Symbol, get_attributes, has_keyword_attribute, set_attributes,
}
use pars_c.Syntax.{
  Expr, FnSignature, Nodes, binary, group, is_void, literal, no_vars, null_expr, signature, symbol,
  void_type,
}
use pars_c.ScopeTable.{
  add_import, add_to_scope, clear_level, declare_global_symbol, declare_if, find_behind, find_from,
  find_global_symbol, find_local_symbol, find_symbol, first_available, get_current_flags,
  get_lower_flags, get_scope, get_scope_data, go_down, go_up, has_symbol, new_table, put_scope_data,
  set_file_id, set_lock,
}
use pars_c.Parser.State.{
  Ast, Calls, Run, StdLib, can_initialize, exhausted, first_match, front_allows, get_current_fn,
  gets, lexing, match_one_of, meaningless, modify, new_node, peek_between, pure, returned, scoping,
  throw, with_function, with_initialize, ◌>>=◌,
}
use pars_c.Parser.Symbols.{
  attribute_buffer, attribute_list, collect_attributes, emplace_token, get_symbol, keep_attributes,
  parse_attributes, symbol_of,
}
use pars_c.Parser.Binary.{
  binary_loop, expression, parse_and, parse_binary_rule, parse_comparison, parse_equality,
  parse_exp, parse_factor, parse_or, parse_range, parse_term,
}
use pars_c.Parser.Literals.{first_byte, literal_value, parse_literal, parse_word}
use pars_c.Parser.Primary.{
  array_elements, collect_call_arguments, expressions_until, parse_abs, parse_array_literal,
  parse_brace_list, parse_cast, parse_group, parse_identifier, parse_keyword, parse_marked,
  parse_primary_inner, parse_ptr_op, struct_or_symbol,
}
use pars_c.Parser.Postfix.{
  index_loop, or_inner, parse_call, parse_index, parse_member, parse_primary, parse_slice,
  parse_suffix, parse_unary, primary_from, put_inner_token, put_token, token_of,
}
use pars_c.Parser.Types.{
  add_param, comma_unless, count_param, fields_loop, has_initializer, member_loop, no_symbol,
  param_loop, param_symbol, parse_array, parse_field, parse_fields, parse_fn_param,
  parse_fn_signature, parse_fn_type, parse_members, parse_pointer, parse_size, parse_struct,
  parse_type, parse_type_at, parse_type_meta, return_type, set_at, struct_fields, type_meta_of,
  var_token,
}
use pars_c.Parser.Declarations.{
  Variants, add_node, add_variant, block_loop, braced_body, collection_or, emplace_fn, flag_if,
  get_or_add_symbol, method_loop, parse_alias, parse_block, parse_body, parse_enum, parse_fn,
  parse_impl, parse_self, parse_var, parse_variant, return_of, typed_or_initialized, var_type,
  variant_value,
}
use pars_c.Parser.Statements.{
  binding_loop, comp_if_stmt, declaration, declaration_behind, discard_attributes,
  expression_statement, imported_symbol, parse_alias_name, parse_assignment, parse_binding,
  parse_condition, parse_else, parse_for, parse_if, parse_import, parse_loop, parse_return,
  parse_selection, parse_while, path_loop, return_from, return_value, selection_loop, statement,
  statement_behind, var_or_statement,
}
use pars_c.Parser.Knot.{calls_with, parse, parse_loop_nodes}
use pars_c.Parser.Balance.{Kept, Kept-refl}
use pars_c.Parser.Balance.Whole.{parse-Kept}
use pars_c.Parser.Nesting.{Nested}
use pars_c.Parser.Nesting.Ladder.{expression-Nested}
use pars_c.Parser.Bindings.{symbol_of-get_attributes}
use pars_c.Parser.Signatures.{IsSignature, parse_fn_signature-IsSignature}
use Prim.Native.String.{String}
use pars_c.TextReader.{
  Source, TextReader, consume, at_end, peek, advance, peek_next, peek_last, sync, slice, is_blank,
  is_insignificant, isdigit, isalnum, is_identifier, advance_while, get_identifier,
  skip_insignificant, skip_until, match_any, is_escape_sequence,
}
use pars_c.TextReader
use pars_c.Arena.{write, copy_to, view_of, get_slice}
use pars_c.Lexer.Keywords.{codes, find, find_keyword}
use pars_c.Lexer.Literals.{
  scan_digits, build_digit, escaped_char, start_escape, write_escaped, string_round, string_loop,
  string_lexeme, string_end, build_string, char_end, escaped_lexeme, build_char, build_identifier,
}
use pars_c.Lexer.Scanner.{skip_comments, build_dot, build_default, build_for, advance_one}
use pars_c.Lexer.Window
use pars_c.Tests.Lexing.{lexer_of}

abbrev std : StdLib
std = record { from_chars_i32 = λ text. 5; from_chars_f32 = λ text. 0; atol = λ text. 9 }

abbrev ast_of : String → Ast
ast_of text = record {
  lexer = lexer_of text;
  node_count = 0;
  function_stack = [];
  pending_attributes = [];
  module_attributes = [];
  can_initialize_stack = [];
  g_attributes = [];
  scope_table = new_table [] [];
  collections = [];
}

abbrev value_or : {A : Type 0} → A → Run A → A
value_or other (returned value s) = value
value_or other _ = other

abbrev state_or : {A : Type 0} → Ast → Run A → Ast
state_or other (returned value s) = s
state_or other _ = other

-- The parser with fuel for twelve calls in one another.
parser : Calls
unfolding while bytes_eq consume TextReader.set_source at_end peek advance peek_next peek_last sync
    slice is_blank is_insignificant isdigit isalnum is_identifier advance_while get_identifier
    skip_insignificant skip_until TextReader.match match_any is_escape_sequence write copy_to
    view_of get_slice scan_digits build_digit escaped_char start_escape write_escaped string_round
    string_loop string_lexeme string_end build_string char_end escaped_lexeme build_char
    build_identifier build_token_with build_token build_token2 build_token3 build_error
    skip_comments build_dot build_default build_for advance_one find find_keyword Window.advance_to
    Window.advance Window.peek_from Window.peek Window.peek_is Window.peek_next_from
    Window.peek_next Window.peek_next_is Window.peek_last Window.peek_last_is Window.advance_if
    Window.match Window.match_next Window.match_second Window.match_both Window.expect_found
    Window.expect Window.has_next new_table set_file_id set_lock get_scope_data put_scope_data
    get_lower_flags get_current_flags go_down clear_level go_up add_import get_scope
    find_global_symbol declare_global_symbol declare_if add_to_scope find_from find_local_symbol
    first_available find_behind find_symbol has_symbol set_attributes get_attributes
    has_keyword_attribute type_eq between ◌>>=◌ pure throw exhausted gets modify lexing scoping
    match_one_of first_match peek_between new_node front_allows can_initialize get_current_fn
    emplace_token attribute_list attribute_buffer keep_attributes parse_attributes
    collect_attributes symbol_of get_symbol binary_loop parse_binary_rule parse_range parse_exp
    parse_factor parse_term parse_comparison parse_equality parse_or parse_and expression first_byte
    parse_word literal_value parse_literal expressions_until collect_call_arguments parse_brace_list
    array_elements parse_array_literal parse_group struct_or_symbol parse_identifier parse_cast
    parse_ptr_op parse_abs parse_marked parse_keyword parse_primary_inner or_inner put_token
    token_of put_inner_token parse_slice parse_index index_loop parse_member parse_call parse_suffix
    primary_from parse_primary parse_unary set_at fields_loop parse_fields has_initializer var_token
    add_param comma_unless type_meta_of parse_type_meta param_symbol parse_fn_param count_param
    param_loop return_type parse_fn_signature parse_field struct_fields parse_struct member_loop
    parse_members parse_size parse_array parse_pointer parse_fn_type parse_type_at parse_type
    flag_if collection_or get_or_add_symbol emplace_fn return_of add_node add_variant variant_value
    parse_variant typed_or_initialized parse_self parse_enum block_loop parse_block braced_body
    parse_body parse_fn method_loop parse_impl parse_alias var_type parse_var parse_binding
    binding_loop path_loop imported_symbol selection_loop parse_alias_name parse_selection
    return_value discard_attributes parse_import parse_condition parse_else parse_if parse_while
    parse_loop parse_for return_from parse_return parse_assignment expression_statement comp_if_stmt
    statement_behind statement var_or_statement declaration_behind declaration calls_with
    parse_loop_nodes parse meaningless with_initialize with_function is_void
parser = calls_with std 12

-- The operators and the operands of an expression, in brackets.
name_of : TokenType → Bytes
name_of TokenType.plus = codes "+"
name_of TokenType.star = codes "*"
name_of TokenType.and_kw = codes "&"
name_of TokenType.or_kw = codes "|"
name_of _ = codes "?"

show : Expr → Bytes
unfolding name_of
show (binary node left op right) = codes "(" ++ show left ++ name_of op ++ show right ++ codes ")"
show (symbol node name) = name
show (literal node value type) = node.token.lexeme
show (group node e) = codes "{" ++ show e ++ codes "}"
show _ = codes "other"

read : Run Expr
unfolding parser
read = (calls_with std 60).expression (ast_of "a + b * 2 and c or (d and e)")

read-show : show (value_or null_expr read) ≡ codes "((a+(b*2))&(c|{(d&e)}))"
unfolding show read
read-show = refl

expression-Nested_example : Nested (value_or null_expr read)
unfolding read
expression-Nested_example =
    expression-Nested std 60 (ast_of "a + b * 2 and c or (d and e)") (omega arith) (omega arith)

abbrev program : String
program =
    "struct P { x: i32 } @private fn f(a: i32): i32 { if a { return a } while a == 2 { a += 1 } }"

parsed : Run Nodes
unfolding parser
parsed = parse std 200 (ast_of program)

parse-Kept_example : Kept (ast_of program) (state_or (ast_of "") parsed)
unfolding parsed
parse-Kept_example = parse-Kept std 200 (ast_of program) (omega arith) (omega arith)

abbrev waiting : Ast
waiting = record (ast_of "") {
  pending_attributes = TokenType.extern_kw ∷ [];
  module_attributes = TokenType.private_kw ∷ [];
  g_attributes = TokenType.static_kw ∷ [];
}

bound : Run Symbol
unfolding parser
bound = symbol_of (codes "f") waiting

symbol_of-get_attributes_example :
    get_attributes (value_or no_symbol bound) (state_or waiting bound).g_attributes
    ≡ TokenType.extern_kw ∷ TokenType.private_kw ∷ []
unfolding bound
symbol_of-get_attributes_example =
    symbol_of-get_attributes (codes "f") waiting (state_or waiting bound) (state_or waiting bound)
      (value_or no_symbol bound) (omega arith) (omega arith) refl
      (Kept-refl (state_or waiting bound))

abbrev red : Variants
red = record {
  highest_value = 1;
  default_value = 0;
  variants =
      (codes "Red", record { symbol = symbol_with (codes "Red") no_attributes 0; value = 0 }) ∷ [];
}

sig : Run FnSignature
unfolding parser
sig = parse_fn_signature (calls_with std 60) true no_vars (ast_of "(a: i32, b: i32 = 5): u8")

abbrev no_signature : FnSignature
no_signature = signature no_vars 0 false 0 void_type

parse_fn_signature-IsSignature_example : IsSignature no_vars (value_or no_signature sig)
unfolding sig
parse_fn_signature-IsSignature_example =
    parse_fn_signature-IsSignature std 60 true no_vars (ast_of "(a: i32, b: i32 = 5): u8")
      (omega arith) (omega arith)
