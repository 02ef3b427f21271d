-- ===== src/Client.antt =====
-- The chat client of src/client/.
pub mod Worker
pub mod Executor
pub mod Session
pub mod Run
pub mod Guarded
