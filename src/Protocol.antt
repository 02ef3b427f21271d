-- ===== src/Protocol.antt =====
-- src/protocol: the command codec and the line framing.
pub mod Codec
pub mod LineParser
