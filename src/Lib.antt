-- ===== src/Lib.antt =====
-- The frontend of ParsC, a compiler for the language Pars.
--
-- The parts and how they interact. A file is loaded into one large arena (src/file_manager.cpp,
-- src/memory/arena.cpp). A text reader walks over its bytes (src/text_reader.cpp), and the lexer
-- reads tokens off it (src/lexer.cpp, src/token.hpp), by way of a window of the last, the current
-- and the next token that the parser looks through. Symbols are declared in a table of scopes
-- (src/scope_table.cpp), which falls back on the global symbols of all modules
-- (src/module_manager.cpp); their attributes are kept in one list (src/symbol.cpp). The parser
-- (src/ast.cpp) builds a tree from the tokens, and enters what is declared into the table. What the
-- compiler is to do is read off the command line (src/cli.cpp) into a configuration
-- (src/config.cpp).
--
-- Which file models which part.
--   Common: Boolean tests, lists over the native numbers, hash maps as lists of entries, while loops.
--   TextReader: src/text_reader.cpp. A reader is its offset, the start of the lexeme under way, line
--     and column, and the text. Offsets and lines wrap at 32 bits, columns at 16. `Source.beyond` is
--     the memory behind the text, for the places that look out of bounds. View follows the
--     functions that the lexer builds on over three texts: what was cut off, the lexeme under way, and
--     the rest. Scan has the loops that skip and that read identifiers, Look `peek_next`, `peek_last` and
--     `match`. `get_until_blank_or`, `get_line` and `match_next` are not followed there.
--   Token: src/token.hpp. Outcome: calls that throw a FrontendError or are undefined.
--   Arena: src/memory/arena.cpp, with Slices for what is read back.
--   Lexer: src/lexer.cpp. State has the lexer and the build_token functions, Literals the literals,
--     Scanner `advance_one`, Window the functions that the parser calls. Strings, Numbers, Words and
--     Chars are on the literals, Scanner.Gaps on what stands in front of a token, Scanner.Operators on
--     the operators, Scanner.Kept and Window.Look on the window. Scanner.Switch has what all cases of
--     the switch share. Progress is on how far a call moves the reader: Progress.Weights counts what the
--     window has still to give, and what the functions that the parser calls take of it.
--   ScopeTable: src/scope_table.cpp and the global symbols of src/module_manager.cpp. Frames sees the
--     table as a stack, Search is on the find functions, Blocks on scopes as AutoScope brackets them.
--   Cli, Config: src/cli.cpp, src/config.cpp. Symbol: src/symbol.cpp. FileManager: src/file_manager.cpp.
--   FnCollection: src/fn_collection.cpp. Report: report_token of src/token.cpp, and src/warnings.cpp.
--   Mangle: src/mangle.hpp.
--   Syntax: the nodes of src/expr.hpp, src/stmt.hpp and src/type.hpp, as the parser makes them.
--   Parser: src/ast.cpp and src/ast.hpp. State has the fields of `AST` and how its functions run, Symbols
--     the attributes, Binary the ladder of operators, Literals, Primary and Postfix the operands, Types,
--     Declarations and Statements the functions of these names, and Knot ties them together. Returns
--     states what a call returns; Nesting is on operators, Balance on its stacks and attributes, Bindings on
--     attributes, Enums and Signatures on what is collected there. Ends follows what each call takes of
--     the weight of the lexer, so that Ends.Fuel has the fuel that is enough.
--   Types: src/type.hpp and src/type.cpp, types once they are resolved. A pointer to a type is its number
--     in a store, which may share types and have cycles: Ranks bounds what a type has inside, Answers
--     has the fuel that is enough, Equality and Coercion what is equal and what can be assigned.
--     Members looks up members and methods, as an arrow of src/analyzer.cpp does, and
--     Overloads gives FnCollection.Typing this equality.
--   Tests: runs on small texts, and the results below at inputs that meet their hypotheses.
--
-- State. An object that the code changes is a record that goes in and comes out; globals (the escape
-- buffer, the global symbols, the attributes, the index of files) go along in the same way. Hash maps
-- are lists of entries, as only lookups and entries that are put in occur.
--
-- Bounds. A text is shorter than 4294967295 bytes, so that its offsets fit 32 bits (the field `fits`
-- of View). A `while` loop runs on fuel: the bytes that are left, of which each round reads at least
-- one (`View-remaining`), so that the loop ends by its test. The loop of `report_token` has the number
-- of its rounds as an argument. The parser runs on fuel, for calls in one another
-- and for the rounds of each loop; a call without fuel ends as `no_fuel`. Fuel for more than twice the
-- weight of the lexer is enough (Parser.Ends.Fuel): the weight is the number of bytes that are left,
-- and one for each token read ahead that is not the end. Every call that is made in a round of a loop,
-- or by a function that it ends in, comes behind a token that was taken, but for the step from an
-- expression to its first operand; so two calls in one another take one off the weight. A
-- test on types runs on fuel for the types inside one another, which the sum of two ranks bounds
-- (Types.Ranks). The escape buffer needs room for what is written to it (`HasRoom`),
-- since the code does not look at the capacity. A table of scopes has at most 65535 levels below the outermost.
--
-- Parameters. `atoi` is the C library's, and `StdLib` has what the parser calls of the C++ library, with
-- the numbers as bit patterns; `read` is the file system, and `fresh` the memory that
-- `virtual_alloc` hands out. Overload sets stand on an interface (FnCollection.Typing) of what they use
-- of types, expressions and the analyzer.
--
-- Not modelled: the analyzer but for the lookup of members, evaluation at compile time and the names of
-- types, which change the tree of the parser in place, where this development has it as a value; the
-- emission, which consists of calls of LLVM; and all printing. Messages are kept as values, unformatted.
pub mod Common
pub mod TextReader
pub mod Token
pub mod Outcome
pub mod Arena
pub mod Lexer
pub mod ScopeTable
pub mod Cli
pub mod Config
pub mod Symbol
pub mod Syntax
pub mod Parser
pub mod Types
pub mod FileManager
pub mod FnCollection
pub mod Report
pub mod Mangle
mod Tests
