-- ===== src/Parse.antt =====
-- The parsing library (lib/Parse).
pub mod Chars
pub mod Utf8
pub mod Token
pub mod Lexer
pub mod Parser
mod Tests
