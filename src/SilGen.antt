-- ===== src/SilGen.antt =====
-- The cleanups of SIL generation (lib/SIL/SILGen/Cleanup.cpp, Cleanup.h and Scope.h beside it).
pub mod Cleanup
mod Tests
