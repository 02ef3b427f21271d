-- ===== src/Core.antt =====
-- src/core: error codes, the configuration loader, file descriptors.
pub mod ErrorCode
pub mod Number
pub mod ConfigLoader
