-- ===== src/Target.antt =====
-- Target information, code/TargetInfo and code/include/TargetInfo.
pub mod Types
pub mod Sizes
pub mod Structs
pub mod Classes
pub mod Calls
pub mod Tests
