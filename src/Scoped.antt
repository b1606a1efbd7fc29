-- ===== src/Scoped.antt =====
-- The scoped hash table, code/include/ADT/ScopedHashTable.h, and the ribs of code/sema.
pub mod Tables
pub mod Ribs
pub mod Tests
