-- ===== src/Common/Mysql/Answers.antt =====
-- servers/common/src/MysqlDao.cpp on a running pool that holds a connection, for a user that the
-- database has.
use quick_chat.Prelude.{
  true, false, List, [], ◌∷◌, ◌++◌, some, ◌≡◌, arith, Bytes, bytes_eq, bytes_eq_iff, ℤ,
  if◌then◌else◌, done,
}
use quick_chat.Common.Mysql.Pool.{SqlConnection, get_connection, return_connection}
use quick_chat.Common.Mysql.Dao.{
  value, SqlServer, MysqlDao, UserInfo, UserRow, check_email, update_pwd, check_pwd,
  check_pwd_result,
}

module _ (srv : SqlServer) where
  -- The connection `c` was used and is back.
  abbrev pub used : SqlConnection → List SqlConnection → srv.Db → MysqlDao srv → MysqlDao srv
  used c cs db m = record m { pool = record m.pool { pool = cs ++ c ∷ [] }; db = db }

  module _ (m : MysqlDao srv) (c : SqlConnection) (cs : List SqlConnection)
      (running : m.pool.b_stop ≡ false) (held : m.pool.pool ≡ c ∷ cs) (name : Bytes) where
    pub check_email_known :
        (email : Bytes)
        → srv.select_email c.con name m.db ≡ value (some email)
        → check_email srv name email m ≡ (done true, used c cs m.db m)
    unfolding check_email get_connection return_connection
    check_email_known email h = ground (arith, running, held, h, bytes_eq_iff email email)

    pub update_pwd_done :
        (pwd : Bytes) (rows : ℤ)
        → (srv.update_pwd c.con name pwd m.db).0 ≡ value rows
        → update_pwd srv name pwd m
          ≡ (done true, used c cs (srv.update_pwd c.con name pwd m.db).1 m)
    unfolding update_pwd get_connection return_connection
    update_pwd_done pwd rows h = ground (arith, running, held, h)

    pub check_pwd_known :
        (pwd : Bytes) (out : UserInfo) (row : UserRow)
        → srv.select_user c.con name m.db ≡ value (some row)
        → check_pwd srv name pwd out m ≡ (
          done (
              if bytes_eq pwd row.pwd
              then (true, record { name = name; pwd = row.pwd; uid = row.uid; email = row.email })
              else (false, out)),
          used c cs m.db m,
        )
    unfolding check_pwd check_pwd_result get_connection return_connection
    check_pwd_known pwd out row h = ground (arith, running, held, h)
