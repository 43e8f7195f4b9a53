-- ===== src/Lib.antt =====
-- A verification library for Quekka, the message queue of this repository.
--
-- The program and its parts. A producer (src/quekka/Quekka_producer.c) connects to a broker, whose
-- address is in a configuration (src/quekka/Quekka_config.c), and publishes texts under a topic, cut
-- into messages of 4096 bytes (include/quekka/Quekka_message.h). src/quekka/Quekka_protocol.c packs
-- such messages; it is compiled out. On the broker's side src/internal/libsocket.c has a socket server
-- that keeps a table of clients and serves them from an event loop (src/internal/libepoll.c), an older
-- server that forks a child for each connection, and the echo loop of such a child.
-- src/server/quekka.c is the server program, and src/server/quekka.cpp its older form in C++.
-- src/cli/quekka-cli.cpp is a client that shows the messages that it receives.
-- include/quekka/Quekka_mdb.hpp has tables in memory whose changes are told to callbacks; no other
-- part uses it yet. Errors are kept as a code per thread
-- (src/quekka/Quekka_quecode.c) and written to a log (src/quekka/Quekka_log.c).
--
-- Which file models which part:
-- - Base: shared names, Boolean tests, lists over native numbers, machine integers, C strings and
--   arrays (Base/Memory). An `int` is its 32 bits as a number, so -1 is 0xffffffff, and
--   `is_negative` is the test `< 0`.
-- - Os: the operating system. A call takes the next reply of a script that the environment has
--   written and is added to a trace; a call with no reply left waits for ever. Replies are
--   arbitrary. Os/Ensures states total correctness of such runs: no fault, fuel enough, waiting only
--   without replies left, exits only with the code 1. Os/Safe has runs whose calls since a given
--   trace are all of one kind, also where they wait, and in which a fault may be allowed. Os/Holds
--   says what holds of a run where it returns and where it waits, Os/Endless has the runs that never
--   return, Os/Descriptors which descriptors a trace leaves open, and Os/Fresh the traces whose new
--   descriptors are unused.
-- - Socket, Epoll: the wrappers of the socket calls and the epoll handler. Socket/Safe and
--   Epoll/Safe are about them in the runs of Os/Safe.
-- - Clients: the client manager, a linked list on a heap of nodes. Clients/Chain says which nodes a
--   list runs through; Clients/Laws and Clients/Removal are about the operations.
--   Clients/Table is what the server uses of it, as an interface of operations and laws, and
--   Clients/HeapTable makes the linked list one. Clients/Refines compares whole
--   sequences of operations with a list of clients.
-- - Server: the socket server over any table of clients; Server/Lifecycle has its creation, event
--   loop and destruction. Server/Owns, Accept, Receive, Loop, Drains, Release, Life,
--   Disconnect, Deaf, Still, Lasting, Stop, Ending, Distinct and Capacity hold the proofs; Server/Echo
--   is about a server that sends back what it receives.
-- - Comm: the echo loop and the forking server, with their proofs in Comm/Session and Comm/Forking.
-- - Main: the server program, with Main/Serves. Broker: its older form in C++, with Broker/Runs.
-- - Cli: the client. Cli/Receive is about its callback, Cli/Runs about the program, Cli/Rounds about
--   one round of the loop, and Cli/Messages about the messages of a producer.
-- - Mdb: the tables in memory. Mdb/Key has what the maps ask of a key, Mdb/Columns the rows of a
--   table on a map (Mdb/Columns/Map), Mdb/Table a table with its callback, and Mdb/Database the named
--   tables of all record types on a heap. Mdb/Table/Calls, Replay, Threads and Order are about
--   sequences of calls, the events that they tell, and the threads that tell them;
--   Mdb/Database/Laws, Reference, Sound and Reach about names, references and types.
-- - Message, Message/Wire: the layout of a message, and how its fields are read from the wire.
-- - Producer: publishing; Producer/Connect: the connection. Producer/Fragments describes the
--   messages that a call sends, Producer/Layout reads them back,
--   Producer/Publish, Producer/Single and Producer/Pieces put it together. Producer/Target joins it
--   with the configuration, and Producer/Outcomes has all the ends that a call can come to.
-- - Protocol: serialize and deserialize; Protocol/Published joins them with the producer.
-- - Config: the configuration. Quecode: the error codes.
-- - Log: the logger with the files that it writes; Log/Grows, Log/Marks and Log/Lines are about
--   sequences of calls. Log/Threads has `log_write` in pieces, as threads run it with the mutex;
--   Log/Pieces and Log/Atomic compare that with whole calls, and Log/Progress is about the mutex.
--   Log/Heads builds the heads of the lines from the arguments of a call; Log/Heads/Read reads a line
--   back, Log/Heads/Digits its number, Log/Heads/Names is about the names in it and Log/Heads/Calls
--   about the call.
-- Modules called Tests apply the theorems to concrete states.
--
-- Each function of the source is a definition of the same name, without the prefix of its module
-- (client_manager_add is Clients.add, epoll_handler_wait is Epoll.wait). Null pointers are `none`;
-- whether an allocation succeeds is an argument, as are the pointer that `malloc` returns, the
-- conversion `inet_pton` and the text that `strftime` gives. The blocks that the client gets from
-- `malloc` are a function of the state, and may hold any bytes. The record types of a database are a
-- parameter: a schema of types with a test for equality. A detached thread is a task that runs at some
-- later time, in any order. State that a function reaches through a
-- pointer is an argument and part of the result.
--
-- Bounds. Loops run on fuel. The loops that make system calls get one more than the number of
-- replies that are left, and each round takes at least one; the loops over the clients get one more
-- than the number of clients; the loop that publishes gets one more than the length of the text, of
-- which each round takes some. The sequence number of a message wraps at 2^16.
-- A number in a log line is printed with at most ten digits, as many as an `int` has.
--
-- Not modelled: the messages to the log from the other parts, and what perror prints, whose effect on
-- errno is neglected; calls of one table in memory from several threads, for which the source has no
-- lock, and allocations of its containers that fail; src/quekka/Quekka_sub.c, which has no code; the
-- tests and the build files. Callbacks of the server are arbitrary commands on the operating system and
-- on the flag `running`, but do not change the table of clients or the clients' data.
pub mod Base
pub mod Broker
pub mod Cli
pub mod Clients
pub mod Comm
pub mod Config
pub mod Epoll
pub mod Log
pub mod Main
pub mod Mdb
pub mod Message
pub mod Os
pub mod Producer
pub mod Protocol
pub mod Quecode
pub mod Server
pub mod Socket
