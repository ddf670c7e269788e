-- ===== src/Lexer.antt =====
-- src/lexer.hpp and src/lexer.cpp.
pub mod Keywords
pub mod State
pub mod Literals
pub mod Scanner
pub mod Window
pub mod Progress
pub mod Strings
pub mod Numbers
pub mod Words
pub mod Chars
