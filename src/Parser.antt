-- ===== src/Parser.antt =====
-- The parser, code/parser: what looks at the tokens, token trees, paths, use declarations and
-- visibilities, macro items and binding powers.
pub mod Tokens
pub mod TokenTrees
pub mod Paths
pub mod UseTrees
pub mod MacroItems
pub mod Macros
pub mod MacroRules
pub mod RangePatterns
pub mod Attributes
pub mod Precedence
pub mod Tests
