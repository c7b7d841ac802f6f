-- ===== src/Dns.antt =====
-- The DNS reader of src/core.c, in its parts.
pub mod Name
pub mod Response
mod Tests
