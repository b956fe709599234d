-- ===== src/Together.antt =====
-- The servers together: the gate server's RPC of servers/GateServer/src/StatusGrpcClient.cpp carried
-- out by servers/StatusServer/src/StatusServiceImpl.cpp.
pub mod Codes
pub mod Logins
pub mod Passwords
use quick_chat.Prelude.{
  ℕ, true, false, List, [], ◌∷◌, ◌++◌, ◌≡◌, ap, ◌∙◌, arith, Bytes, ℤ, pos, Lacks, codes, eqb_ℤ,
  Outcome, done, if◌then◌else◌,
}
use quick_chat.Common.ErrorCodes.{rpc_failed, uid_invalid}
use quick_chat.Common.Redis.Server.{RedisServer}
use quick_chat.Common.Redis.RoundTrip.{KeepsStrings}
use quick_chat.Common.RpcPool.{get_connection, return_connection}
use quick_chat.Common.Mysql.Dao.{MysqlDao, UserInfo, check_pwd}
use quick_chat.Gate.Clients.{Client, get_chat_server, GetChatServerRsp}
use quick_chat.Gate.Logic.{Outside, Context, Json, document, error_doc, user_login}
use quick_chat.Gate.Logic.Fields.{TextAt}
use quick_chat.Gate.Logic.SignIn.{login_doc, user_login_accepted}
use quick_chat.Status.Service.{Service, login}
use quick_chat.Status.Service
use quick_chat.Status.Service.Login.{login-get_chat_server}

-- The message that the status server sends, as the gate server reads it.
abbrev pub received : Service.GetChatServerRsp → GetChatServerRsp
received r = record { error = r.error; host = r.host; port = r.port; token = r.token }

module _ (out : Outside) (srv : RedisServer) (keeps : KeepsStrings srv) where
  -- The call of the gate server on a stub is the call of the status server.
  pub record CarriedOut (stub : ℕ) (uid : ℤ) (uuid : Bytes) (peer : out.remote.Peer)
      (before after : Service.Service srv) (rsp : Service.GetChatServerRsp) : Type 0 where
    pub served : Service.get_chat_server srv uid uuid before ≡ (done rsp, after)
    pub ok : (out.remote.chat_server stub uid peer).0 ≡ true
    pub message : (out.remote.chat_server stub uid peer).1 ≡ received rsp

  -- A call of the client on a running pool that holds a stub, when the status server carries it
  -- out, returns its message.
  get_chat_server-received :
      (s : Client out.remote) (stub : ℕ) (stubs : List ℕ) (uid : ℤ) (uuid : Bytes)
      (before after : Service.Service srv) (rsp : Service.GetChatServerRsp)
      → s.pool.b_stop ≡ false
      → s.pool.connections ≡ stub ∷ stubs
      → CarriedOut stub uid uuid s.peer before after rsp
      → (get_chat_server out.remote uid s).0 ≡ done (received rsp)
  unfolding get_chat_server get_connection return_connection
  get_chat_server-received s stub stubs uid uuid before after rsp running held carried =
      ground (arith, carried.ok, carried.message)

  -- A user who signs in at the gate server with the right password gets a token that the status
  -- server refuses: the answer of the gate server holds the token that `GetChatServer` has made and
  -- stored, and a `Login` with it, right afterwards, is answered with the code for an invalid uid.
  -- So it is if the status server answers the call, its Redis keeps strings as documented, the
  -- pools are running, the one of the status server still holds a connection, and the token has no
  -- zero byte.
  pub signed_in_then_refused :
      (blank info : UserInfo) (src : Json out) (name pwd uuid : Bytes) (s : Context out)
      (mysql : MysqlDao out.sql_server) (stub : ℕ) (stubs : List ℕ)
      (before after : Service.Service srv) (rsp : Service.GetChatServerRsp) (d : ℕ) (ds : List ℕ)
      → TextAt out src (codes "user") name
      → TextAt out src (codes "passwd") pwd
      → check_pwd out.sql_server name pwd blank s.mysql ≡ (done (true, info), mysql)
      → s.status_client.pool.b_stop ≡ false
      → s.status_client.pool.connections ≡ stub ∷ stubs
      → CarriedOut stub info.uid uuid s.status_client.peer before after rsp
      → after.redis.con_pool.b_stop ≡ false
      → after.redis.con_pool.connections ≡ d ∷ ds
      → Lacks 0 uuid
      → ((user_login out blank src s).1.body
          ≡ s.body ++ document (login_doc out name info (received rsp)) ∷ [])
        × (rsp.token ≡ uuid)
        × ((login srv info.uid rsp.token after).0
            ≡ done (record { error = uid_invalid; uid = pos 0; token = [] }))
  signed_in_then_refused blank info src name pwd uuid s mysql stub stubs before after rsp d ds
        has_name has_pwd accepted running held carried still left ht =
      let (ok, token, refused) =
        login-get_chat_server srv keeps info.uid uuid before after rsp d ds ht carried.served still
          left in
      let called =
        get_chat_server-received s.status_client stub stubs info.uid uuid before after rsp running
          held carried in
      let answer =
        user_login_accepted out blank info src name pwd s has_name has_pwd mysql (received rsp)
          (get_chat_server out.remote info.uid s.status_client).1 accepted
          (λ i. (called i, (get_chat_server out.remote info.uid s.status_client).1)) in
      (
        ap (λ (r : Outcome (Unit {0}) × Context out). r.1.body) answer
            ∙ ap
                (λ e.
                  s.body
                  ++ document (
                      if eqb_ℤ e (pos 0)
                      then login_doc out name info (received rsp)
                      else error_doc out rpc_failed)
                    ∷ [])
                ok,
        token,
        refused,
      )
