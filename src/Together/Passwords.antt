-- ===== src/Together/Passwords.antt =====
-- "/reset_pwd" of servers/GateServer/src/LogicSystem.cpp, and then "/user_login" of the same server.
use quick_chat.Prelude.{
  ℕ, true, false, List, [], ◌∷◌, ◌++◌, some, ◌≡◌, ◌≢◌, refl, ap, ◌∙◌, Bytes, codes, ℤ, done,
}
use quick_chat.Common.ErrorCodes.{passwd_invalid}
use quick_chat.Common.Redis.Commands.{RedisMgr, get}
use quick_chat.Common.Mysql.Pool.{SqlConnection}
use quick_chat.Common.Mysql.Dao.{value, SqlServer, MysqlDao, UserInfo, UserRow}
use quick_chat.Common.Mysql.Answers.{used, check_email_known, update_pwd_done}
use quick_chat.Gate.Clients as Clients
use quick_chat.Gate.Clients.{Client, GetChatServerRsp}
use quick_chat.Gate.Logic.{Outside, Context, Json, document, error_doc, reset_pwd, user_login}
use quick_chat.Gate.Logic.Fields.{TextAt}
use quick_chat.Gate.Logic.Reset.{reset_doc, reset_pwd_succeeds}
use quick_chat.Together.Logins.{next_of, fresh_response, sign_in_answer, info_of, signs_in, denied}

-- MySQL's documentation of UPDATE: once it has not failed, SELECT finds the row of the name with
-- the new password, on whichever connections the two statements go out.
pub record KeepsPasswords (sql : SqlServer) : Type 0 where
  pub select_after_update :
      (c d e : ℕ) (name pwd : Bytes) (db : sql.Db) (row : UserRow) (rows : ℤ)
      → sql.select_user c name db ≡ value (some row)
      → (sql.update_pwd d name pwd db).0 ≡ value rows
      → sql.select_user e name (sql.update_pwd d name pwd db).1
        ≡ value (some (record row { pwd = pwd }))

module _ (out : Outside) (keeps : KeepsPasswords out.sql_server) where
  -- A reset of the password takes effect: a request with all its fields, the right verification
  -- code and the email that the database has for the user is answered with success, where the update
  -- does not throw; then a login with the new password is answered by what the status server replies for the id of the row, and one
  -- with any other password is refused. So it is if MySQL keeps passwords as documented and the
  -- pool is running and holds two connections.
  pub reset_then_login :
      (prefix email name pwd old code : Bytes) (src now stale : Json out) (s : Context out)
      (redis : RedisMgr out.redis_server) (c d : SqlConnection) (cs : List SqlConnection)
      (row : UserRow) (rows : ℤ) (blank : UserInfo) (reply : GetChatServerRsp)
      (client : Client out.remote)
      → TextAt out src (codes "email") email
      → TextAt out src (codes "user") name
      → TextAt out src (codes "passwd") pwd
      → TextAt out src (codes "verifycode") code
      → TextAt out now (codes "user") name
      → TextAt out now (codes "passwd") pwd
      → TextAt out stale (codes "user") name
      → TextAt out stale (codes "passwd") old
      → old ≢ pwd
      → get out.redis_server (prefix ++ email) [] s.redis ≡ (done (true, code), redis)
      → s.mysql.pool.b_stop ≡ false
      → s.mysql.pool.pool ≡ c ∷ d ∷ cs
      → out.sql_server.select_email c.con name s.mysql.db ≡ value (some email)
      → out.sql_server.select_user c.con name s.mysql.db ≡ value (some row)
      → (out.sql_server.update_pwd d.con name pwd s.mysql.db).0 ≡ value rows
      → Clients.get_chat_server out.remote row.uid s.status_client ≡ (done reply, client)
      → let t : Context out = fresh_response out (reset_pwd out prefix src s).1 in
        ((reset_pwd out prefix src s).0 ≡ done tt)
        × ((reset_pwd out prefix src s).1.body
            ≡ s.body ++ document (reset_doc out email name pwd code) ∷ [])
        × ((user_login out blank now t).1.body
            ≡ sign_in_answer out name (info_of out name pwd row) reply)
        × ((user_login out blank stale t).1.body ≡ document (error_doc out passwd_invalid) ∷ [])
  reset_then_login prefix email name pwd old code src now stale s redis c d cs row rows blank reply
        client has_email has_name has_pwd has_code now_name now_pwd stale_name stale_pwd changed
        verified running held its_email its_row updated called =
      let sql = out.sql_server in
      let m1 : MysqlDao sql = used sql c (d ∷ cs) s.mysql.db s.mysql in
      let db : sql.Db = (sql.update_pwd d.con name pwd s.mysql.db).1 in
      let m2 : MysqlDao sql = used sql d (cs ++ c ∷ []) db m1 in
      let first = check_email_known sql s.mysql c (d ∷ cs) running held name email its_email in
      let second = update_pwd_done sql m1 d (cs ++ c ∷ []) running refl name pwd rows updated in
      let ends =
        reset_pwd_succeeds out prefix src email name pwd code s has_email has_name has_pwd has_code
          redis verified m1 m2 first second in
      let (e, es, next) = next_of (cs ++ c ∷ []) d in
      let found =
        keeps.select_after_update c.con d.con e.con name pwd s.mysql.db row rows its_row updated in
      let u : Context out = record s {
        body = s.body ++ document (reset_doc out email name pwd code) ∷ [];
        redis = redis;
        mysql = m2;
      } in
      (
        ap (λ r. r.0) ends,
        ap (λ r. r.1.body) ends,
        ap (λ r. (user_login out blank now (fresh_response out r.1)).1.body) ends
            ∙ signs_in out blank name pwd now u now_name e es row running next found reply client
                now_pwd called,
        ap (λ r. (user_login out blank stale (fresh_response out r.1)).1.body) ends
            ∙ denied out blank name pwd stale u stale_name e es row running next found old stale_pwd
                changed,
      )
