-- ===== src/Protocol.antt =====
-- internal/protocol: the MWB wire format, its stamps and its encrypted streams.
pub mod Types
pub mod Packet
pub mod Stamp
pub mod Stream
