-- ===== src/Gate/Logic/SignIn.antt =====
-- "/user_login", run to its end.
use quick_chat.Prelude.{
  true, false, [], ◌∷◌, ◌++◌, ◌≡◌, arith, Bytes, codes, pos, eqb_ℤ, if◌then◌else◌, done,
}
use quick_chat.Common.ErrorCodes.{success, rpc_failed, passwd_invalid}
use quick_chat.Common.Mysql.Dao.{MysqlDao, UserInfo, check_pwd}
use quick_chat.Gate.Clients.{Client, GetChatServerRsp}
use quick_chat.Gate.Clients
use quick_chat.Gate.Logic.Fields.{TextAt}
use quick_chat.Gate.Logic.{
  Outside, Context, document, number, text, Root, Json, error_doc, user_login,
}

module _ (out : Outside) where
  abbrev pub login_doc : Bytes → UserInfo → GetChatServerRsp → Root out
  login_doc name info reply =
      (codes "error", number success)
      ∷ (codes "user", text name)
      ∷ (codes "uid", number info.uid)
      ∷ (codes "token", text reply.token)
      ∷ (codes "host", text reply.host)
      ∷ []

  module _ (blank info : UserInfo) (src : Json out) (name pwd : Bytes) (s : Context out)
      (has_name : TextAt out src (codes "user") name)
      (has_pwd : TextAt out src (codes "passwd") pwd) (mysql : MysqlDao out.sql_server) where
    -- For a request with a name and a password that `CheckPwd` refuses, the status server is not
    -- asked for a chat server, and the answer is the one error.
    pub user_login_denied :
        check_pwd out.sql_server name pwd blank s.mysql ≡ (done (false, info), mysql)
        → user_login out blank src s ≡ (
          done tt,
          record s { body = s.body ++ document (error_doc out passwd_invalid) ∷ []; mysql = mysql },
        )
    unfolding user_login
    user_login_denied h = ground arith

    -- For a request with a name and a password that `CheckPwd` accepts, the status server is asked
    -- for a chat server for the user's id. The answer holds the token and the host of the reply if
    -- its error is 0, and else `RPCFailed`. It has no member for the port.
    pub user_login_accepted :
        (reply : GetChatServerRsp) (client : Client out.remote)
        → check_pwd out.sql_server name pwd blank s.mysql ≡ (done (true, info), mysql)
        → Clients.get_chat_server out.remote info.uid s.status_client ≡ (done reply, client)
        → user_login out blank src s ≡ (
          done tt,
          record s {
            body =
                s.body
                ++ document (
                    if eqb_ℤ reply.error (pos 0)
                    then login_doc name info reply
                    else error_doc out rpc_failed)
                  ∷ [];
            mysql = mysql;
            status_client = client;
          },
        )
    unfolding user_login
    user_login_accepted reply client h k = ground arith
