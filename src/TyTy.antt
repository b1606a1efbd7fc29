-- ===== src/TyTy.antt =====
-- The types of the type checker, code/include/TyCtx/TyTy.h, and whether two of them can be equal.
pub mod Types
pub mod Compare
pub mod Tests
