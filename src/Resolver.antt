-- ===== src/Resolver.antt =====
-- The ribs and scopes of the name resolver, code/sema/Resolver.
pub mod Maps
pub mod PathMaps
pub mod Ribs
pub mod Scopes
pub mod Closures
pub mod Tests
