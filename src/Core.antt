-- ===== src/Core.antt =====
-- src/core.c: the forwarding of connections.
pub mod Route
pub mod Tcp
pub mod Udp
pub mod Assoc
pub mod Events
pub mod Forwards
mod Tests
