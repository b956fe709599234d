-- ===== src/Startup.antt =====
-- The main functions of the servers and what they build from the configuration:
-- servers/GateServer/src/main.cpp, servers/ChatServer/src/main.cpp,
-- servers/StatusServer/src/main.cpp, the accept loops of the two CServer.cpp and the constructors
-- that read common.ini.
pub mod Ports
pub mod Listen
pub mod Build
pub mod StatusMain
pub mod Mains
pub mod Shutdown
