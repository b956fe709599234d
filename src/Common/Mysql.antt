-- ===== src/Common/Mysql.antt =====
-- servers/common/src/MysqlDao.cpp and servers/common/src/MysqlMgr.cpp, whose methods pass their
-- arguments on to the DAO.
pub mod Pool
pub mod Dao
pub mod Conserve
pub mod Manager
pub mod Answers
pub mod Refresh
