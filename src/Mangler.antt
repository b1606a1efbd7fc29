-- ===== src/Mangler.antt =====
-- The mangler of symbols, code/Mangler/Mangler.cpp.
pub mod Digits
pub mod Basic
pub mod Mangle
pub mod Tests
