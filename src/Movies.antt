-- ===== src/Movies.antt =====
-- The movie database server of `Onion Movie Hash Table Databse/`: films (film.c), the database over
-- the hash table (database.c), and the handlers of the HTTP requests (block5.c).
pub mod Text
pub mod Film
pub mod Database
pub mod Server
