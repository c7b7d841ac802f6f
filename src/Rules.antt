-- ===== src/Rules.antt =====
-- The routing rules of src/main.c and src/core.c: the configuration that they keep, and its parts.
pub mod Conf
pub mod Text
pub mod Domains
pub mod Capacity
pub mod Cidr
pub mod Target
pub mod Tests
