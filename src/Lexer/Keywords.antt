-- ===== src/Lexer/Keywords.antt =====
-- The table `g_keywords` of src/lexer.cpp. The hash map is only ever looked up in, and its keys
-- are distinct, so that it is modelled as the list of its entries.
use Prim.Native.Char.{code}
use Prim.Native.String.{String}
use pars_c.Common.{Option, none, some, List, [], ◌∷◌, Bytes, bytes_eq, if◌then◌else◌}
use pars_c.Token.{TokenType}

-- the bytes of an ASCII literal
abbrev pub codes : String → Bytes
codes String.[] = []
codes (String.◌∷◌ c s) = code c ∷ codes s

abbrev pub keywords : List (Bytes × TokenType)
keywords =
    (codes "struct", TokenType.struct_kw)
    ∷ (codes "impl", TokenType.impl_kw)
    ∷ (codes "trait", TokenType.trait_kw)
    ∷ (codes "union", TokenType.union_kw)
    ∷ (codes "static", TokenType.static_kw)
    ∷ (codes "async", TokenType.async_kw)
    ∷ (codes "await", TokenType.await_kw)
    ∷ (codes "enum", TokenType.enum_kw)
    ∷ (codes "true", TokenType.true_kw)
    ∷ (codes "false", TokenType.false_kw)
    ∷ (codes "if", TokenType.if_kw)
    ∷ (codes "else", TokenType.else_kw)
    ∷ (codes "return", TokenType.return_kw)
    ∷ (codes "const", TokenType.const_kw)
    ∷ (codes "volatile", TokenType.volatile_kw)
    ∷ (codes "import", TokenType.import_kw)
    ∷ (codes "private", TokenType.private_kw)
    ∷ (codes "inout", TokenType.inout_kw)
    ∷ (codes "var", TokenType.var_kw)
    ∷ (codes "let", TokenType.let_kw)
    ∷ (codes "imut", TokenType.imut_kw)
    ∷ (codes "extern", TokenType.extern_kw)
    ∷ (codes "alignof", TokenType.align_of_kw)
    ∷ (codes "alias", TokenType.alias_kw)
    ∷ (codes "distinct", TokenType.distinct_kw)
    ∷ (codes "for", TokenType.for_kw)
    ∷ (codes "while", TokenType.while_kw)
    ∷ (codes "loop", TokenType.loop_kw)
    ∷ (codes "match", TokenType.match_kw)
    ∷ (codes "continue", TokenType.continue_kw)
    ∷ (codes "break", TokenType.break_kw)
    ∷ (codes "sizeof", TokenType.sizeof_kw)
    ∷ (codes "error", TokenType.error_kw)
    ∷ (codes "in", TokenType.in_kw)
    ∷ (codes "and", TokenType.and_kw)
    ∷ (codes "or", TokenType.or_kw)
    ∷ (codes "fn", TokenType.fn_kw)
    ∷ (codes "cast", TokenType.cast_kw)
    ∷ (codes "nil", TokenType.nil_kw)
    ∷ (codes "nameof", TokenType.nameof_kw)
    ∷ []

unfoldable pub find : Bytes → List (Bytes × TokenType) → Option TokenType
unfolding bytes_eq
find name [] = none
find name ((key, type) ∷ rest) = if bytes_eq key name then some type else find name rest

unfoldable pub find_keyword : Bytes → Option TokenType
unfolding find
find_keyword name = find name keywords
