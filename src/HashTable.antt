-- ===== src/HashTable.antt =====
-- The chained hash table of `Distributed Hash Table/hash_table.c`.
pub mod Hash
pub mod Chain
pub mod Table
pub mod Placed
pub mod Resize
pub mod Methods
pub mod Refine
