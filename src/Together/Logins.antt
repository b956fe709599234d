-- ===== src/Together/Logins.antt =====
-- "/user_login" of servers/GateServer/src/LogicSystem.cpp for a user whose row is known.
use quick_chat.Prelude.{
  false, List, [], ◌∷◌, ◌++◌, some, ◌≡◌, ◌≢◌, refl, ap, ◌∙◌, arith, Bytes, bytes_eq, bytes_eq_iff,
  bytes_eq_self, codes, pos, eqb_ℤ, if◌then◌else◌, done,
}
use quick_chat.Common.ErrorCodes.{rpc_failed, passwd_invalid}
use quick_chat.Common.Mysql.Pool.{SqlConnection}
use quick_chat.Common.Mysql.Dao.{value, UserInfo, UserRow}
use quick_chat.Common.Mysql.Answers.{used, check_pwd_known}
use quick_chat.Gate.Clients as Clients
use quick_chat.Gate.Clients.{Client, GetChatServerRsp}
use quick_chat.Gate.Logic.{Outside, Context, Json, Chunk, document, error_doc, user_login}
use quick_chat.Gate.Logic.Fields.{TextAt}
use quick_chat.Gate.Logic.SignIn.{login_doc, user_login_accepted, user_login_denied}

-- The connection that a pool hands out next, once another was given back.
pub next_of {ℓ} :
    {A : Type ℓ} (xs : List A) (x : A) → (y : A) × (ys : List A) × (xs ++ x ∷ [] ≡ y ∷ ys)
next_of [] x = (x, [], refl)
next_of (z ∷ zs) x = (z, zs ++ x ∷ [], refl)

module _ (out : Outside) where
  -- A further request on the same server, with a response of its own.
  abbrev pub fresh_response : Context out → Context out
  fresh_response s = record s { json_type = false; body = [] }

  -- What the gate server answers to a login.
  abbrev pub sign_in_answer : Bytes → UserInfo → GetChatServerRsp → List (Chunk (Json out))
  sign_in_answer name info reply =
      document (
        if eqb_ℤ reply.error (pos 0)
        then login_doc out name info reply
        else error_doc out rpc_failed)
      ∷ []

  abbrev pub info_of : Bytes → Bytes → UserRow → UserInfo
  info_of name pwd row = record { name = name; pwd = pwd; uid = row.uid; email = row.email }

  -- A user's data base row has the password `pwd`, and the pool holds a connection.
  module _ (blank : UserInfo) (name pwd : Bytes) (src : Json out) (u : Context out)
      (has_name : TextAt out src (codes "user") name) (e : SqlConnection) (es : List SqlConnection)
      (row : UserRow) (running : u.mysql.pool.b_stop ≡ false) (held : u.mysql.pool.pool ≡ e ∷ es)
      (found : out.sql_server.select_user e.con name u.mysql.db
        ≡ value (some (record row { pwd = pwd }))) where
    pub signs_in :
        (reply : GetChatServerRsp) (client : Client out.remote)
        → TextAt out src (codes "passwd") pwd
        → Clients.get_chat_server out.remote row.uid u.status_client ≡ (done reply, client)
        → (user_login out blank src (fresh_response u)).1.body
          ≡ sign_in_answer name (info_of name pwd row) reply
    signs_in reply client has_pwd called =
        let known =
          check_pwd_known out.sql_server u.mysql e es running held name pwd blank
            (record row { pwd = pwd }) found in
        let accepted = known ∙ (rw (bytes_eq_self pwd) refl) in
        ap (λ r. r.1.body)
          (user_login_accepted out blank (info_of name pwd row) src name pwd (fresh_response u)
            has_name has_pwd (used out.sql_server e es u.mysql.db u.mysql) reply client accepted
            called)

    pub denied :
        (old : Bytes)
        → TextAt out src (codes "passwd") old
        → old ≢ pwd
        → (user_login out blank src (fresh_response u)).1.body
          ≡ document (error_doc out passwd_invalid) ∷ []
    denied old has_pwd changed =
        let known =
          check_pwd_known out.sql_server u.mysql e es running held name old blank
            (record row { pwd = pwd }) found in
        let differs : bytes_eq old pwd ≡ false = ground (arith, bytes_eq_iff old pwd, changed) in
        let refused = known ∙ (rw differs refl) in
        ap (λ r. r.1.body)
          (user_login_denied out blank blank src name old (fresh_response u) has_name has_pwd
            (used out.sql_server e es u.mysql.db u.mysql) refused)
