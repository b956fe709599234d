-- ===== src/Verify.antt =====
-- The verification server: servers/VerifyServer/verify_server.py.
pub mod Settings
pub mod Service
pub mod Serve
pub mod Prefix
