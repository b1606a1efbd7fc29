-- ===== src/Lexer.antt =====
-- code/lexer and code/include/Lexer.
pub mod KeyWords
pub mod Token
pub mod Scan
pub mod Lex
pub mod Tests
