-- ===== src/Common.antt =====
-- What the servers share: servers/common.
pub mod Defer
pub mod Redis
pub mod Mysql
pub mod RpcPool
pub mod Waiting
pub mod Singleton
pub mod IoPool
pub mod ErrorCodes
pub mod Text
pub mod Config
