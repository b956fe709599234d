-- ===== src/Status.antt =====
-- The status server: servers/StatusServer.
pub mod Service
