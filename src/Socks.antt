-- ===== src/Socks.antt =====
-- src/socks.c, in its parts.
pub mod Codec
pub mod Handshake
pub mod Datagram
mod Tests
