-- ===== src/Provider.antt =====
-- The DNS providers and their helpers: provider/ and pkg/mem/.
pub mod Memory
pub mod Helpers
