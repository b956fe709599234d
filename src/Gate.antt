-- ===== src/Gate.antt =====
-- The gate server: servers/GateServer.
pub mod Url
pub mod Query
pub mod Clients
pub mod Logic
pub mod Http
