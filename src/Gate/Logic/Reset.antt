-- ===== src/Gate/Logic/Reset.antt =====
-- "/reset_pwd", run to its end.
use quick_chat.Prelude.{
  true, false, List, [], ◌∷◌, ◌++◌, none, ◌≡◌, arith, Bytes, bytes_eq_iff, codes, ℤ, done,
}
use quick_chat.Common.ErrorCodes.{success}
use quick_chat.Common.Redis.Commands.{RedisMgr, get}
use quick_chat.Common.Mysql.Pool.{SqlConnection, get_connection, return_connection}
use quick_chat.Common.Mysql.Dao.{value, MysqlDao, check_email, update_pwd}
use quick_chat.Common.Mysql.Conserve.{check_email_unknown_user}
use quick_chat.Gate.Logic.Fields.{TextAt}
use quick_chat.Gate.Logic.{Outside, Context, document, number, text, Root, Json, reset_pwd}

module _ (out : Outside) where
  abbrev pub reset_doc : Bytes → Bytes → Bytes → Bytes → Root out
  reset_doc email name pwd code =
      (codes "error", number success)
      ∷ (codes "email", text email)
      ∷ (codes "user", text name)
      ∷ (codes "passwd", text pwd)
      ∷ (codes "verifycode", text code)
      ∷ []

  module _ (prefix : Bytes) (src : Json out) (email name pwd code : Bytes) (s : Context out)
      (has_email : TextAt out src (codes "email") email)
      (has_name : TextAt out src (codes "user") name)
      (has_pwd : TextAt out src (codes "passwd") pwd)
      (has_code : TextAt out src (codes "verifycode") code) (redis : RedisMgr out.redis_server)
      (verified : get out.redis_server (prefix ++ email) [] s.redis
        ≡ (done (true, code), redis)) where
    -- With the right verification code the two calls of the database decide: where the email is the
    -- user's and the update goes through, the answer says so.
    pub reset_pwd_succeeds :
        (mysql mysql' : MysqlDao out.sql_server)
        → check_email out.sql_server name email s.mysql ≡ (done true, mysql)
        → update_pwd out.sql_server name pwd mysql ≡ (done true, mysql')
        → reset_pwd out prefix src s ≡ (
          done tt,
          record s {
            body = s.body ++ document (reset_doc email name pwd code) ∷ [];
            redis = redis;
            mysql = mysql';
          },
        )
    unfolding reset_pwd
    reset_pwd_succeeds mysql mysql' c u = ground (arith, bytes_eq_iff code code)

    -- A request with all its fields and the right verification code, for a user that the database
    -- does not have, is answered with success, provided that the pool is running, that it holds two
    -- connections and that the update does not throw. One of the connections is then lost to the
    -- pool.
    pub reset_pwd_unknown_user :
        (c d : SqlConnection) (cs : List SqlConnection) (rows : ℤ)
        → s.mysql.pool.b_stop ≡ false
        → s.mysql.pool.pool ≡ c ∷ d ∷ cs
        → out.sql_server.select_email c.con name s.mysql.db ≡ value none
        → (out.sql_server.update_pwd d.con name pwd s.mysql.db).0 ≡ value rows
        → ((reset_pwd out prefix src s).0 ≡ done tt)
          × ((reset_pwd out prefix src s).1.body
              ≡ s.body ++ document (reset_doc email name pwd code) ∷ [])
          × ((reset_pwd out prefix src s).1.mysql.pool.pool ≡ cs ++ d ∷ [])
    unfolding reset_pwd update_pwd get_connection return_connection
    reset_pwd_unknown_user c d cs rows running held unknown updated = ground (
      arith,
      bytes_eq_iff code code,
      check_email_unknown_user out.sql_server s.mysql c (d ∷ cs) running held name email unknown,
    )
