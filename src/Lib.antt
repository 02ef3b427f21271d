-- ===== src/Lib.antt =====
-- A chat server over TLS and epoll, with a PostgreSQL database, and its protocol.
--
-- Clients send commands as lines. src/protocol/command_codec.cpp gives a command its text, the
-- fields separated by CR and the line ended by LF, and reads it back; src/protocol/line_parser.cpp
-- takes complete lines out of a receive buffer. Buffers, flush_send and drain_recv are
-- src/net/io_helper.cpp, over the TLS sessions of src/net/tls_session.cpp. The connections live in
-- src/reactor/epoll_registry.cpp, which other threads change only through a queue of commands;
-- src/reactor/event_loop.cpp handles that queue and then the events of epoll_wait, with the
-- handlers of src/server/epoll_server.cpp. Lines that decode become tasks of
-- src/database/db_executor.cpp, whose worker asks src/database/db_service.cpp, a transaction of SQL for
-- each operation, and answers through the queue. On the client's side src/client/chat_io_worker.cpp
-- polls the terminal and the socket, and src/client/chat_executor.cpp executes what the server sends.
--
-- Prelude: numbers, integers, texts (lists of bytes), maps as association lists, sets as lists.
-- Core.ErrorCode: error_code and std::expected. Core.Number: std::to_string, std::stoll and the
--   checks of room ids and limits that db_executor.cpp and chat_io_worker.cpp make with it.
-- Core.ConfigLoader: src/core/config_loader.cpp, with Trim, Lines (the entries of the lines of a file),
--   Entries (what a file loads to) and RoundTrip.
-- Protocol.Codec: encode and decode, with RoundTrip and Sound. Protocol.LineParser: has_line and
--   parse_line, with Framing and Wire.
-- Net.Buffer: offset_buffer, send_buffer, recv_buffer. Net.TlsError: packed codes. Net.TlsSession:
--   the state of a session and its calls. Net.Socket: socket_info, flush_send, drain_recv.
-- Reactor.Interest: event masks. Reactor.Index: a map of sets of descriptors. Reactor.Registry:
--   epoll_registry, as State (what makes no system call) and Handlers (what does).
-- Database.Service: the interface of db_service. Database.Account, Friends, Rooms: the
--   execute_command overloads of db_executor. Database.Executor: its queue and dispatch; its
--   children Keeps, KeptHandlers and Kept carry what every operation of a service keeps over to tasks,
--   and Heard looks for the answers among their requests.
-- Storage.Select: WHERE, UPDATE and ORDER BY over lists of rows. Storage.Tables: the schema of
--   scripts/migrate_db_schema.sh. Storage.Connector: src/database/db_connector.cpp.
--   Storage.Transaction: the try block around the statements of an operation. Storage.Users, Friends,
--   Rooms: the operations of src/database/db_service.cpp. Storage.Service: these operations as the
--   interface that Database.Executor takes, with children for what follows for users, friendships,
--   rooms and logins, the page of a history (Page), and for errors (Atomic). Storage.Keys: the primary and foreign keys of the
--   schema, with what each statement does to them; Storage.Service.Valid joins them to the
--   invariants of rooms and friendships.
-- Server.Connection: the handlers of one connection. Server.Execute: handle_execute and its loop.
--   Server.Loop: event_loop::run over them. Server.ThreadPool: thread_pool. Server.Invariant: the
--   steps of the threads and the states they reach.
-- Client.Worker: parse and execute of src/client/chat_io_worker.cpp, which turn an input line into a
--   command; Sent relates it to the codec. Client.Session: its handshake, its flushes and its reads of
--   the terminal. Client.Run: the poll events and the loop of run, with Client.Guarded and
--   Client.Run.Verified on the check of the certificate. Client.Executor: src/client/chat_executor.cpp.
-- Witnesses: the theorems at concrete inputs.
--
-- A function that changes an object takes it and returns it changed. A reference into the map of
-- connections is its key with the value, written back where the source writes; `dangling` tells
-- that the source has used a reference to an erased entry. What the kernel, OpenSSL and the
-- database answer are arguments: the kernel's answers by the number of the call, OpenSSL's as
-- the list of replies of a loop, after whose end a non-blocking socket is dry. The loop over lines
-- has as fuel the number of unread characters and one more; a line takes a character at least,
-- so it is enough. The C++ size_t of `remaining` wraps at 2 ^ 64, the packed TLS codes keep their 16
-- bits, and an int64 that does not fit is refused as std::stoll refuses it.
--
-- A step of the server is one database task, one handled queue, one handled event or one accepted
-- descriptor. The requests of a task are put on the queue together; the source locks for each, so
-- requests of other threads may stand between them.
--
-- A table is the list of its rows, without the columns and indexes that no statement reads; a text
-- holds no NUL, as in PostgreSQL. A statement gives rows or violates a constraint; a transaction
-- runs its statements alone, since the mutex of db_service lets one call through at a time and no
-- other program writes the tables. Its outcome is an argument: it commits, it fails at the first
-- statement or at the commit, or it commits and the program hears an error. A roll back restores
-- the rows, while a sequence keeps what it has handed out; sequences are taken to stay below 2 ^ 63.
-- now() is a number for each transaction, and the order of texts a strict total order.
--
-- The client's loop has one record of answers for each round: what poll reports, what the terminal
-- and OpenSSL give, and the error of the socket. Its run over a list of rounds is the source's run that
-- is asked to stop after them, or that ends by itself before. Its terminal lines have the unread
-- characters and one more as fuel, as the server's.
--
-- Not modelled: log lines, creation of sessions, sockets and threads (src/net/tls_context.cpp,
-- src/net/addr.cpp, src/net/fd_helper.cpp, src/core/unique_fd.cpp, src/reactor/epoll_wakeup.cpp,
-- src/server/epoll_listener.cpp, src/server/epoll_acceptor.cpp, src/client/chat_client.cpp), which
-- are calls of the system and of OpenSSL; epoll_wait itself, waiting and joining of workers; the
-- paths of the executable and the log (src/core/path_util.cpp, src/core/logger.cpp); the entry points
-- in apps; interleavings of the client's two threads, which share only the login flag and the console;
-- and the order of an unordered_map or unordered_set, which are lists here.
pub mod Prelude
pub mod Core
pub mod Protocol
pub mod Net
pub mod Reactor
pub mod Database
pub mod Server
pub mod Storage
pub mod Client
pub mod Witnesses
