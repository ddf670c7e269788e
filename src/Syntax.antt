-- ===== src/Syntax.antt =====
-- The tree that the parser builds: the node types of src/expr.hpp, src/stmt.hpp and src/type.hpp,
-- with the fields that the parser writes. The null pointer is a constructor of each type that has
-- it, and what the analyzer or the emission adds later is left out. A node is known by the number
-- of nodes that were made before it, which stands for its address.
use pars_c.Common.{
  Option, ℕ, ◌+◌, ◌/◌, ◌%◌, ◌^◌, ◌==◌, if◌then◌else◌, Bool, true, false, List, Bytes,
}
use pars_c.Token.{TokenType, Token}
use pars_c.Symbol.{Symbol}

-- `Node` of src/node.hpp
pub record Node : Type 0 where
  pub id : ℕ
  pub token : Token

-- The numbers are the bit patterns of the `i32` and the `f32`; the character is a byte.
pub data LiteralExprValue : Type 0 where
  i32 : ℕ → LiteralExprValue
  f32 : ℕ → LiteralExprValue
  string : Bytes → LiteralExprValue
  bool : Bool → LiteralExprValue
  char : ℕ → LiteralExprValue
  nil : LiteralExprValue

pub record EnumVariant : Type 0 where
  pub symbol : Symbol
  pub value : ℕ

pub record NamedSymbol : Type 0 where
  pub name : Bytes
  pub symbol : Bytes

-- `std::bitset<32>`, by its bits
abbrev pub MutSet : Type 0
MutSet = ℕ

-- `Expr`: the node's own fields follow in the order in which they are declared. The index of an
-- initializer is `UINT32_MAX` on every one that the parser makes, so a list of initializers is a
-- list of expressions. `AnyNode` is what the source has as `Node`, `Ty` what it has as `Type`.
mutual
  pub data Expr : Type 0 where
    null_expr : Expr
    literal : Node → LiteralExprValue → Ty → Expr
    binary : Node → Expr → TokenType → Expr → Expr
    unary : Node → ℕ → Expr → Expr
    symbol : Node → Bytes → Expr
    call : Node → Expr → Exprs → Expr
    group : Node → Expr → Expr
    sizeof_expr : Node → Expr → Expr
    nameof_expr : Node → Expr → Expr
    keyword : Node → Expr
    -- target, accessor, is_static_access
    member_access : Node → Expr → Expr → Bool → Expr
    cast : Node → MutSet → Ty → Expr → Expr
    named : Node → Bytes → Expr → Expr
    abs : Node → Expr → Expr
    ptr_op : Node → TokenType → Expr → Expr
    packed : Node → Expr
    anon_init : Node → Exprs → Expr
    -- type_specifier, initializers
    array_literal : Node → Expr → Exprs → Expr
    struct_literal : Node → Bytes → Exprs → Expr
    -- lhs, index
    index_op : Node → Expr → Expr → Expr
    -- lhs, start, end
    slice : Node → Expr → Expr → Expr → Expr

  pub data Exprs : Type 0 where
    no_exprs : Exprs
    more_exprs : Expr → Exprs → Exprs

  pub data Ty : Type 0 where
    null_type : Ty
    void_type : Ty
    i32_type : Ty
    f32_type : Ty
    bool_type : Ty
    char_type : Ty
    str_type : Ty
    void_pointer_type : Ty
    packed_type : Ty
    unresolved_symbol : Node → Bytes → Ty
    pointer : Node → Ty → Ty
    slice_of : Node → Ty → Ty
    -- size, size_expr, element type, members
    array : Node → ℕ → Expr → Ty → List Bytes → Ty
    struct : Node → Symbol → Fields → Ty
    -- default_value, variants
    enum : Node → Symbol → ℕ → List (Bytes × EnumVariant) → Ty
    -- is_distinct, type
    alias : Node → Symbol → Bool → MutSet → Ty → Ty
    -- signature, body, flags, collection
    fn : Node → Symbol → FnSignature → Block → ℕ → Option ℕ → Ty

  pub data Fields : Type 0 where
    no_fields : Fields
    more_fields : Symbol → MutSet → Ty → Fields → Fields

  pub data FnSignature : Type 0 where
    -- parameters, callable_arity, is_variadic, return_type
    signature : VarDecls → ℕ → Bool → MutSet → Ty → FnSignature

  pub data VarDecl : Type 0 where
    -- symbol, type, initializer, flags
    var_decl : Node → Symbol → MutSet → Ty → Expr → ℕ → VarDecl

  pub data VarDecls : Type 0 where
    no_vars : VarDecls
    more_vars : VarDecl → VarDecls → VarDecls

  pub data Block : Type 0 where
    no_block : Block
    block : Node → Nodes → Block

  pub data Nodes : Type 0 where
    no_nodes : Nodes
    more_nodes : AnyNode → Nodes → Nodes

  pub data AnyNode : Type 0 where
    null_node : AnyNode
    expr_node : Expr → AnyNode
    type_node : Ty → AnyNode
    var_node : VarDecl → AnyNode
    block_node : Block → AnyNode
    -- lhs, rhs, op
    assignment : Node → Expr → Expr → TokenType → AnyNode
    -- path, alias, selective_imports
    import_stmt : Node → List Bytes → Bytes → List NamedSymbol → AnyNode
    return_stmt : Node → Expr → AnyNode
    break_stmt : Node → AnyNode
    continue_stmt : Node → AnyNode
    -- condition, body, else_br
    if_stmt : Node → Expr → Block → AnyNode → AnyNode
    comp_if : Node → AnyNode → AnyNode
    while_stmt : Node → Expr → Block → AnyNode
    -- bindings, iterable, body
    for_stmt : Node → VarDecls → Expr → Block → AnyNode
    impl_stmt : Node → Symbol → Types → AnyNode

  pub data Types : Type 0 where
    no_types : Types
    more_types : Ty → Types → Types

-- `set` of the `bitset`, at a place below 32
abbrev pub set_bit : ℕ → MutSet → MutSet
set_bit p m = if (m / 2 ^ p) % 2 == 0 then m + 2 ^ p else m

-- Whether `is_equal(&VOID_TYPE)` accepts a type that the parser makes: the `is_equal` of each of
-- these asks for its own kind of type, or for an array, on the other side; that of the packed type
-- accepts every type.
unfoldable pub is_void : Ty → Bool
is_void void_type = true
is_void packed_type = true
is_void _ = false
