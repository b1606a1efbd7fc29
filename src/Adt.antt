-- ===== src/Adt.antt =====
-- code/include/ADT and code/ADT: names as code points, and paths of names.
pub mod Names
pub mod Paths
pub mod Tests
