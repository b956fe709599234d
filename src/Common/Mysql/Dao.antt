-- ===== src/Common/Mysql/Dao.antt =====
-- servers/common/src/MysqlDao.cpp: the class `MysqlDao`, and servers/common/src/MysqlMgr.cpp, which
-- passes every call on. What the driver does at a statement is a parameter.
-- `getConnection` gives null on a stopped pool only, and such a pool takes nothing back: so a null
-- connection that `CheckEmail`, `UpdatePwd` and `CheckPwd` return to it changes nothing.
use quick_chat.Prelude.{
  ℕ, Bool, true, false, not, [], Option, none, some, Bytes, bytes_eq, ℤ, pos, negsuc, if◌then◌else◌,
  done, M, ◌>>=◌, return,
}
use quick_chat.Common.Defer.{defer}
use quick_chat.Common.Mysql.Pool.{MySqlPool, SqlConnection, get_connection, return_connection}

-- A call of the driver: a value, or an `sql::SQLException`.
pub data Sql (A : Type 0) : Type 0 where
  value : A → Sql A
  sql_exception : Sql A

-- `UserInfo`
pub record UserInfo : Type 0 where
  pub name : Bytes
  pub pwd : Bytes
  pub uid : ℤ
  pub email : Bytes

-- A row of the table `user`, as `getString` and `getInt` read it.
pub record UserRow : Type 0 where
  pub pwd : Bytes
  pub email : Bytes
  pub uid : ℤ

-- The statements of the DAO on a connection. A query gives its first row, or none, and an exception
-- of a getter at that row is one of the query.
-- `past_the_end`: `getString("email")` and `getInt("uid")` on a result set with no current row.
pub record SqlServer : Type 1 where
  pub Db : Type 0
  pub call_reg_user : ℕ → Bytes → Bytes → Bytes → Db → Sql (Option ℤ) × Db
  pub select_email : ℕ → Bytes → Db → Sql (Option Bytes)
  pub update_pwd : ℕ → Bytes → Bytes → Db → Sql ℤ × Db
  pub select_user : ℕ → Bytes → Db → Sql (Option UserRow)
  pub past_the_end : Sql (Bytes × ℤ)

module _ (srv : SqlServer) where
  pub record MysqlDao : Type 0 where
    pub pool : MySqlPool
    pub db : srv.Db

  acquire : M MysqlDao (Option SqlConnection)
  acquire s = let r = get_connection s.pool in (r.0, record s { pool = r.1 })

  -- `pool_->returnConnection(std::move(con))`
  give_back : SqlConnection → MysqlDao → MysqlDao
  give_back c s = record s { pool = return_connection s.pool c }

  -- `RegUser`: every path gives the connection back.
  reg_user_result : Sql (Option ℤ) → ℤ
  reg_user_result (value (some result)) = result
  reg_user_result (value none) = negsuc 0
  reg_user_result sql_exception = negsuc 0

  reg_user_on : Bytes → Bytes → Bytes → Option SqlConnection → M MysqlDao ℤ
  unfolding give_back reg_user_result
  reg_user_on name email pwd none s = (done (pos 0), s)
  reg_user_on name email pwd (some c) s =
      let r = srv.call_reg_user c.con name email pwd s.db in
      (done (reg_user_result r.0), give_back c (record s { db = r.1 }))

  unfoldable pub reg_user : Bytes → Bytes → Bytes → M MysqlDao ℤ
  unfolding acquire reg_user_on
  reg_user name email pwd = acquire >>= reg_user_on name email pwd

  -- `CheckEmail`: with no row the method falls out of the `try` block and never gives the
  -- connection back.
  check_email_result : SqlConnection → Bytes → Sql (Option Bytes) → M MysqlDao Bool
  unfolding give_back
  check_email_result c email (value (some found)) s = (done (bytes_eq email found), give_back c s)
  check_email_result c email (value none) s = (done true, s)
  check_email_result c email sql_exception s = (done false, give_back c s)

  check_email_on : Bytes → Bytes → Option SqlConnection → M MysqlDao Bool
  unfolding check_email_result
  check_email_on name email none s = (done false, s)
  check_email_on name email (some c) s =
      check_email_result c email (srv.select_email c.con name s.db) s

  unfoldable pub check_email : Bytes → Bytes → M MysqlDao Bool
  unfolding acquire check_email_on
  check_email name email = acquire >>= check_email_on name email

  -- `UpdatePwd`: the number of updated rows is printed and not looked at.
  update_pwd_result : Sql ℤ → Bool
  update_pwd_result (value updated) = true
  update_pwd_result sql_exception = false

  update_pwd_on : Bytes → Bytes → Option SqlConnection → M MysqlDao Bool
  unfolding give_back update_pwd_result
  update_pwd_on name newpwd none s = (done false, s)
  update_pwd_on name newpwd (some c) s =
      let r = srv.update_pwd c.con name newpwd s.db in
      (done (update_pwd_result r.0), give_back c (record s { db = r.1 }))

  unfoldable pub update_pwd : Bytes → Bytes → M MysqlDao Bool
  unfolding acquire update_pwd_on
  update_pwd name newpwd = acquire >>= update_pwd_on name newpwd

  -- `CheckPwd`, after the loop that reads at most one row. `out` is the caller's `UserInfo`: with
  -- an exception its name is already written.
  check_pwd_row : Bytes → Bytes → UserInfo → Option UserRow → Bool × UserInfo
  check_pwd_row name pwd out (some row) =
      if not (bytes_eq pwd row.pwd)
      then (false, out)
      else (true, record { name = name; pwd = row.pwd; uid = row.uid; email = row.email })
  check_pwd_row name pwd out none =
      if not (bytes_eq pwd []) then (false, out) else elim srv.past_the_end [
        | value (email, uid) ↦ (true, record { name = name; pwd = []; uid = uid; email = email })
        | sql_exception ↦ (false, record out { name = name })
      ]

  unfoldable pub check_pwd_result :
      Bytes → Bytes → UserInfo → Sql (Option UserRow) → Bool × UserInfo
  unfolding check_pwd_row
  check_pwd_result name pwd out (value row) = check_pwd_row name pwd out row
  check_pwd_result name pwd out sql_exception = (false, out)

  -- The `Defer` gives the connection back on every path.
  check_pwd_on : Bytes → Bytes → UserInfo → Option SqlConnection → M MysqlDao (Bool × UserInfo)
  unfolding give_back check_pwd_result
  check_pwd_on name pwd out none = return (false, out)
  check_pwd_on name pwd out (some c) =
      defer (give_back c)
        (λ s. (done (check_pwd_result name pwd out (srv.select_user c.con name s.db)), s))

  unfoldable pub check_pwd : Bytes → Bytes → UserInfo → M MysqlDao (Bool × UserInfo)
  unfolding acquire check_pwd_on
  check_pwd name pwd out = acquire >>= check_pwd_on name pwd out
