-- ===== src/Network.antt =====
-- internal/network: the packet handler, the connection and its loops.
pub mod Devices
pub mod Handler
pub mod Conn
pub mod Receiver
