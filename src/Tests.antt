-- ===== src/Tests.antt =====
-- Runs of the model on small inputs, and the theorems at inputs that meet their hypotheses.
pub mod Lexing
mod Reading
mod Looking
mod Scoping
mod Setup
mod Texts
mod Overloads
mod Parsing
mod Typing
