-- ===== src/Runtime.antt =====
-- The runtime's memory allocation (runtime/Alloc.cpp, runtime/Alloc.h, the portable versions of
-- what runtime/FastEntryPoints.s has for x86-64).
pub mod Classes
pub mod Alloc
pub mod Counts
pub mod FreeLists
pub mod Printing
pub mod Metadata
mod Tests
