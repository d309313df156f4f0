-- ===== src/Rpc.antt =====
-- The remote calls on the hash table: the server over TCP of `Distributed Hash Table/server.c`, the
-- client of `Movie Parser/client.c`, and the client over UDP of
-- `Simple Hash Table Client Server/client.c`.
pub mod Stream
pub mod Serve
pub mod Film
pub mod Client
pub mod Datagram
pub mod Csv
pub mod Marshall
