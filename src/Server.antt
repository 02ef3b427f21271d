-- ===== src/Server.antt =====
-- The server of src/server/epoll_server.cpp with the loop of src/reactor/event_loop.cpp.
pub mod ThreadPool
pub mod Connection
pub mod Execute
pub mod Loop
pub mod Handled
pub mod Closing
pub mod Kept
pub mod Invariant
