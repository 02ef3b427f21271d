-- ===== src/Witnesses.antt =====
-- Concrete inputs, and the theorems at them.
pub mod Data
pub mod Wire
pub mod Sockets
pub mod Chat
pub mod Storage
pub mod Client
pub mod Startup
