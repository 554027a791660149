-- ===== src/Sema.antt =====
-- Semantic analysis: the folding of operator sequences (lib/Sema/TypeCheckExpr.cpp) and parts of
-- the constraint solver (lib/Sema/TypeCheckConstraints.cpp).
pub mod Folding
pub mod TypeVariables
pub mod Ranking
mod Tests
pub mod Tuples
pub mod Functions
