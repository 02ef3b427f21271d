-- ===== src/Database.antt =====
-- The database executor of database/.
pub mod Service
pub mod Reply
pub mod Account
pub mod Friends
pub mod Rooms
pub mod Executor
