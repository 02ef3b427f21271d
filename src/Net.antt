-- ===== src/Net.antt =====
-- src/net: the buffers of a connection, the TLS session and the socket loops.
pub mod Buffer
pub mod TlsError
pub mod TlsSession
pub mod Socket
