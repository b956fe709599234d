-- ===== src/Common/Redis.antt =====
-- servers/common/src/RedisMgr.cpp and servers/common/include/RedisMgr.h.
pub mod Pool
pub mod Server
pub mod Commands
pub mod Leak
pub mod KeepAlive
pub mod RoundTrip
