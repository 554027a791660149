-- ===== src/IrGen.antt =====
-- IR generation: the layout of structures (lib/IRGen/StructLayout.cpp) and the mangling of names
-- (lib/IRGen/Mangle.cpp).
pub mod StructLayout
pub mod Mangle
mod Tests
