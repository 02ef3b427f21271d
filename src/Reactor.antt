-- ===== src/Reactor.antt =====
-- src/reactor: the registry of connections, its index and the event loop.
pub mod Interest
pub mod Index
pub mod Registry
