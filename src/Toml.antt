-- ===== src/Toml.antt =====
-- The reader of Cargo.toml, code/toml and code/include/Toml.
pub mod Values
pub mod Lex
pub mod Parse
pub mod Tests
