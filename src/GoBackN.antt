-- ===== src/GoBackN.antt =====
-- The Go-Back-N file transfer of GoBackN/src.task: the sender's packet buffer, the sender, the
-- receiver, and the two over a network that loses, repeats, reorders and corrupts.
pub mod Arguments
pub mod Message
pub mod Timeval
pub mod DataBuffer
pub mod Receiver
pub mod File
pub mod Sender
pub mod System
