-- ===== src/Dht.antt =====
-- The distributed hash table of `Hash Table/server.c`: nodes on a ring of 16-bit identifiers, the
-- messages by which they join, and the requests that they answer from their tables.
pub mod Wire
pub mod Range
pub mod Node
pub mod Request
pub mod Ring
pub mod Program
