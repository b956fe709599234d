-- ===== src/Common/Mysql/Conserve.antt =====
-- What the methods of `MysqlDao` do to the pool, and what `CheckPwd` accepts.
use quick_chat.Prelude.{
  true, false, List, [], ◌∷◌, ◌++◌, Option, none, some, ◌≡◌, ◌≢◌, refl, Bytes, bytes_eq_iff, arith,
  done, blocked,
}
use quick_chat.Common.Mysql.Pool.{
  MySqlPool, SqlConnection, get_connection, return_connection, close,
}
use quick_chat.Common.Mysql.Dao.{
  Sql, value, sql_exception, UserInfo, UserRow, SqlServer, MysqlDao, reg_user, check_email,
  update_pwd, check_pwd, check_pwd_result,
}

-- `getConnection` never gives null: the tests for it in `MysqlDao` never succeed.
get_connection-ne-null : (p : MySqlPool) → (get_connection p).0 ≢ done none
unfolding get_connection
get_connection-ne-null p h = ground arith

module _ (srv : SqlServer) where
  -- The connection that was at the front is at the back.
  abbrev pub rotated : MySqlPool → SqlConnection → List SqlConnection → MySqlPool
  rotated p c cs = record p { pool = cs ++ c ∷ [] }

  module _ (s : MysqlDao srv) (c : SqlConnection) (cs : List SqlConnection)
      (running : s.pool.b_stop ≡ false) (held : s.pool.pool ≡ c ∷ cs) where
    reg_user-rotates :
        (name email pwd : Bytes) → (reg_user srv name email pwd s).1.pool ≡ rotated s.pool c cs
    unfolding reg_user get_connection return_connection
    reg_user-rotates name email pwd = ground arith

    update_pwd-rotates :
        (name newpwd : Bytes) → (update_pwd srv name newpwd s).1.pool ≡ rotated s.pool c cs
    unfolding update_pwd get_connection return_connection
    update_pwd-rotates name newpwd = ground arith

    check_pwd-rotates :
        (name pwd : Bytes) (out : UserInfo)
        → (check_pwd srv name pwd out s).1.pool ≡ rotated s.pool c cs
    unfolding check_pwd get_connection return_connection
    check_pwd-rotates name pwd out = ground arith

    -- `RegUser`, `UpdatePwd` and `CheckPwd` on a running pool that holds a connection give the
    -- connection at the front back, to the end of the queue, whatever the database answers or
    -- throws.
    dao-rotates :
        (name email pwd : Bytes) (out : UserInfo)
        → ((reg_user srv name email pwd s).1.pool ≡ rotated s.pool c cs)
          × ((update_pwd srv name pwd s).1.pool ≡ rotated s.pool c cs)
          × ((check_pwd srv name pwd out s).1.pool ≡ rotated s.pool c cs)
    dao-rotates name email pwd out = (
      reg_user-rotates name email pwd,
      update_pwd-rotates name pwd,
      check_pwd-rotates name pwd out,
    )

    -- `CheckEmail` gives its connection back, provided that the query throws or finds the user.
    check_email-rotates :
        (name email : Bytes)
        → srv.select_email c.con name s.db ≢ value none
        → (check_email srv name email s).1.pool ≡ rotated s.pool c cs
    unfolding check_email get_connection return_connection
    check_email-rotates name email h = ground arith

    -- On a running pool that holds a connection, for a user that the database does not have,
    -- `CheckEmail` answers true for every email, and the connection is lost to the pool.
    pub check_email_unknown_user :
        (name email : Bytes)
        → srv.select_email c.con name s.db ≡ value none
        → check_email srv name email s
          ≡ (done true, record s { pool = record s.pool { pool = cs } })
    unfolding check_email get_connection return_connection
    check_email_unknown_user name email h = ground arith

    check_pwd_answer :
        (name pwd : Bytes) (out : UserInfo)
        → (check_pwd srv name pwd out s).0
          ≡ done (check_pwd_result srv name pwd out (srv.select_user c.con name s.db))
    unfolding check_pwd get_connection
    check_pwd_answer name pwd out = ground arith

    -- What `CheckPwd` accepts on a running pool that holds a connection, if reading past the end of
    -- a result set throws: the database has a row for the name, the password is the one of that
    -- row, and the `UserInfo` is filled from it.
    pub check_pwd_sound :
        (name pwd : Bytes) (out info : UserInfo)
        → srv.past_the_end ≡ sql_exception
        → (check_pwd srv name pwd out s).0 ≡ done (true, info)
        → (row : UserRow) × (srv.select_user c.con name s.db ≡ value (some row))
          × (row.pwd ≡ pwd)
          × (info ≡ record { name = name; pwd = pwd; uid = row.uid; email = row.email })
    unfolding check_pwd_result
    check_pwd_sound name pwd out info throws h = classify (srv.select_user c.con name s.db) refl
      where
        classify :
            (r : Sql (Option UserRow))
            → srv.select_user c.con name s.db ≡ r
            → (row : UserRow) × (srv.select_user c.con name s.db ≡ value (some row))
              × (row.pwd ≡ pwd)
              × (info ≡ record { name = name; pwd = pwd; uid = row.uid; email = row.email })
        classify (value (some row)) e = (
          row,
          e,
          ground (arith, check_pwd_answer name pwd out, bytes_eq_iff pwd row.pwd),
          ground (arith, check_pwd_answer name pwd out, bytes_eq_iff pwd row.pwd),
        )
        classify (value none) e = absurd (ground (arith, check_pwd_answer name pwd out))
        classify sql_exception e = absurd (ground (arith, check_pwd_answer name pwd out))

  -- After `Close` every method of the DAO waits for ever, whether or not the pool holds a
  -- connection: the predicate of the wait answers false.
  stopped_pool_blocks :
      (s : MysqlDao srv) (name email pwd : Bytes) (out : UserInfo)
      → let stopped = record s { pool = close s.pool } in
        ((reg_user srv name email pwd stopped).0 ≡ blocked)
        × ((check_email srv name email stopped).0 ≡ blocked)
        × ((update_pwd srv name pwd stopped).0 ≡ blocked)
        × ((check_pwd srv name pwd out stopped).0 ≡ blocked)
  unfolding reg_user check_email update_pwd check_pwd get_connection close
  stopped_pool_blocks s name email pwd out = (refl, refl, refl, refl)
