-- ===== src/Unification.antt =====
-- Unification of types, code/TyCtx/Unification.cpp, on a store of type objects.
pub mod Store
pub mod Expect
pub mod Unify
pub mod Tests
