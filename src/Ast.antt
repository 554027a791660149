-- ===== src/Ast.antt =====
-- The diagnostic engine (lib/AST/DiagnosticEngine.cpp, include/swift/AST/DiagnosticEngine.h).
pub mod DiagnosticText
pub mod DiagnosticEngine
mod Tests
