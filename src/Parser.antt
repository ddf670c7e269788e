-- ===== src/Parser.antt =====
-- The parser, src/ast.cpp and src/ast.hpp. Each function takes the functions that it calls in
-- turn as `Calls`; `Knot` ties them together on fuel.
pub mod State
pub mod Symbols
pub mod Binary
pub mod Literals
pub mod Primary
pub mod Postfix
pub mod Types
pub mod Declarations
pub mod Statements
pub mod Knot
pub mod Ends
pub mod Returns
pub mod Balance
pub mod Nesting
pub mod Bindings
pub mod Enums
pub mod Signatures
