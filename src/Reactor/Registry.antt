-- ===== src/Reactor/Registry.antt =====
-- include/reactor/epoll_registry.hpp and src/reactor/epoll_registry.cpp.
pub mod State
pub mod Handlers
pub mod Indexed
pub mod Rooms
pub mod Changes
pub mod Entries
pub mod Sending
pub mod Preserved
pub mod Sessions
pub mod Delivery
pub mod Armed
pub mod Wakeup
