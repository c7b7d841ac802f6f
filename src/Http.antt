-- ===== src/Http.antt =====
-- src/http.c: the HTTP CONNECT proxy.
pub mod Base64
pub mod Handshake
mod Tests
