-- ===== src/Parse/Lexer.antt =====
-- The lexer (lib/Parse/Lexer.cpp, include/swift/Parse/Lexer.h): its state in State, a child for
-- each kind of token, and the main loop in Main.
pub mod State
pub mod Comments
pub mod Identifiers
pub mod Operators
pub mod Numbers
pub mod Characters
pub mod Strings
pub mod Encoded
pub mod Main
pub mod Bounds
pub mod Overrun
pub mod Nesting
pub mod Escapes
