-- ===== src/Common/Mysql/Manager.antt =====
-- servers/common/src/MysqlMgr.cpp: the class `MysqlMgr`, whose only state is its `MysqlDao`.
use quick_chat.Prelude.{Bool, Bytes, ℤ, M}
use quick_chat.Common.Mysql.Dao as Dao
use quick_chat.Common.Mysql.Dao.{SqlServer, MysqlDao, UserInfo}

module _ (srv : SqlServer) where
  abbrev pub reg_user : Bytes → Bytes → Bytes → M (MysqlDao srv) ℤ
  reg_user name email pwd = Dao.reg_user srv name email pwd

  abbrev pub check_email : Bytes → Bytes → M (MysqlDao srv) Bool
  check_email name email = Dao.check_email srv name email

  abbrev pub update_pwd : Bytes → Bytes → M (MysqlDao srv) Bool
  update_pwd name pwd = Dao.update_pwd srv name pwd

  abbrev pub check_pwd : Bytes → Bytes → UserInfo → M (MysqlDao srv) (Bool × UserInfo)
  check_pwd name pwd user_info = Dao.check_pwd srv name pwd user_info
