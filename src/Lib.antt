-- ===== src/Lib.antt =====
-- Programs for a course on computer networking, in C: a hash table, a ring of servers that
-- divide its keys among them, the sender and the receiver of a Go-Back-N file transfer, an NTP
-- client, a server for a database of films, clients of the table over UDP and TCP, the quote of
-- the day, and a reader of web pages. Functions keep the name that they have in C, in lower case
-- with underscores; paths start at the root of the repository.
--
-- HashTable/ models hash_table.c, which is kept in four copies: `Distributed Hash Table/`,
-- `Onion Movie Hash Table Databse/`, `Hash Table/` and `Simple Hash Table Client Server/`. The
-- copies differ in the hash function alone (Hash), so the table is modelled over any hash
-- function. Chain is the list of one bucket with the walks of get, set and delete, Table has the
-- operations, Placed says where keys stand and what the buckets mean, Resize is about the
-- doubling of the array, Methods relates each operation to the dictionary that a table stands
-- for, and Refine runs sequences of calls. Memory does not run out, and a pointer with its
-- length is a list of bytes.
--
-- Dht/ models the server of `Hash Table/server.c`, a node of a ring over UDP. Wire has the bytes
-- of internal messages, Range the arcs of the ring, Node the node with its handlers for join,
-- notify and stabilize (Node/Splice: how a node gets into the ring), Request the requests of
-- clients, answered from the hash table or passed on to the next node, and Ring whole rings: a
-- request that nodes pass on and whose answer they relay, and the message of a join that they
-- pass on (Ring/Nearest and Ring/Answered: which node works on a request, Ring/Joins and
-- Ring/Grown: the ring with a node more). Program has `main`, whose loop handles the datagrams
-- of a list. The part of a request that works on the table is the same in `serve` of
-- `Distributed Hash Table/server.c`. A node is a record of its three pointers; what it sends is
-- a list of packets. Bytes that `realloc` leaves in a buffer are a parameter.
--
-- GoBackN/ models `GoBackN/src.task/`: Message the packets, Timeval the macros of
-- timeval_macros.h, DataBuffer the circular buffer of DataBuffer.c, Sender the reading of the
-- file and a round of the loop of GoBackNSender.c (Sender/Program: the command line, and
-- `main`), Receiver a round of the loop of GoBackNReceiver.c (Receiver/Program: the command
-- line, and `main`; Receiver/Accepted: sequences of packets; Arguments: what the two command
-- lines share), and System both of them over a network, as a step relation: the network delivers
-- any packet that was sent, at any time and any number of times, and any packet that is marked
-- as damaged. What the kernel supplies in a round (the clock, the packet that is read, the
-- results of `send`) is an argument of the round.
--
-- Ntp/ models `NTP Time Server/client.c`: Clock the conversions of times and what four time
-- stamps say of two clocks, Choice the fields of a response and the loop of `main` that chooses
-- a server.
--
-- Movies/ models `Onion Movie Hash Table Databse/`: Text the conversions between numbers and
-- text of the C library, Film film.c, Database database.c over the hash table (Consistent: what
-- a database means, Added, Changes and Renames: what the operations do to it), Server the
-- handlers of block5.c (Created: a film from its POST to its GET, Safety: sequences of requests,
-- Shelf: what requests do to the films, told without the table, Session: `main` over sequences
-- of requests against the shelf). What goes to ONION_INFO is the format of a `printf`: every
-- directive in it is a fault, though some directives only print what happens to be there, and
-- Server/Plain says which requests have none. `sscanf` cuts a number to an `int` as glibc does.
-- cJSON is the parameter `Cjson`, a record of the functions that are called; only Film/RoundTrip
-- assumes something of them, what cJSON says of its objects. What onion tells of a request and
-- keeps of a response are records; the status that a handler returns to onion is left out, as is
-- the release of memory. A variable that `sscanf` leaves alone is a parameter.
--
-- Rpc/ models the remote calls on the table. Stream is a connection, which may end or break
-- anywhere, and Serve is `serve` of `Distributed Hash Table/server.c`, with `run_server` over
-- sequences of connections in Serve/Sequence. Film and Client are `Movie Parser/client.c`: the
-- bytes of a request, and `perform_action` with its attempts, in each of which the network is a
-- value of `Attempt`; Client/Exchange, Client/Missing and Client/Session run it against Serve.
-- Csv is the reading of its file, Marshall is client_malte.c, and Datagram is `Simple Hash Table
-- Client Server/client.c`. Buffers hold what a parameter says before anything is received.
--
-- Chunks models the part of `TCP_IP_and_Drgramms/ex7.c` that collects the chunks of an HTTP
-- response, and Chunks/News the search for the newest entry of the page. Quotes models the quote
-- of the day, the server `TCP_IP_and_Drgramms/ex5.c` and the client `ex4.c`.
--
-- Functions that can fail an assert, follow a NULL pointer, exit, write to a closed file, reach
-- outside an array, divide by zero or print a text of the client as a format return an `Outcome`
-- (Prelude/Outcome). Numbers are natural numbers with the wrap of `size_t`, `uint16_t` and
-- `uint32_t` written out where it can happen, or integers (Prelude/Int) where C has a sign, with
-- the wrap of `int64_t` in Ntp/Clock. An assert that holds by the form of the model is left out:
-- that a buffer with a length is not NULL, and that the element without one before it is the
-- head of its chain.
--
-- Four loops run on fuel. `read_loop` reads 1024 bytes in a round until none is left, and its
-- fuel is one more than the length of the file. `reset_loop` goes around the circular buffer
-- from its first to its free index, and its fuel is the capacity. `receive_chunks` leaves less
-- of its input in each round, and ends within a fuel above the length of the input.
-- `copy_tokens` takes at least one byte of the text in a round, and its fuel is the length of
-- the text. A request and the message of a join are followed through a ring for a number of
-- hops, for which the number of its nodes is enough. The loop of a node runs for a number of
-- rounds, since a datagram can stay in its socket for ever. What clients, the network and the
-- kernel do in a loop that does not end by itself is a list, and the loop is followed to the end
-- of the list.
--
-- Not modelled: the calls that put up sockets, other than whether they succeed, and printing and
-- logging, other than as said above; the command lines other than those of Go-Back-N and of the
-- ring; failures of `select` and `fwrite`, and of `recv` where no list or record tells of them;
-- the release of memory; cJSON; the overflow of `int` and `long` where no wrap is written; the
-- header of ex7.c, and ex6.c with its copies, which are ex4.c over datagrams and with a clock;
-- the network simulator ProtSim.
pub mod Prelude
pub mod HashTable
pub mod GoBackN
pub mod Dht
pub mod Ntp
pub mod Movies
pub mod Rpc
pub mod Chunks
pub mod Quotes
pub mod Tests
