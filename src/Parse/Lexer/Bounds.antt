-- ===== src/Parse/Lexer/Bounds.antt =====
-- The lexer stays inside its buffer and its loops end.
pub mod Pointers
pub mod Comments
pub mod Words
pub mod Numbers
pub mod Characters
pub mod Literals
pub mod Main
