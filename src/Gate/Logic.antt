-- ===== src/Gate/Logic.antt =====
-- servers/GateServer/src/LogicSystem.cpp: the handlers and the two tables.
pub mod Fields
pub mod Register
pub mod Reset
pub mod SignIn
use quick_chat.Prelude.Assoc.{lookup, insert_new}
use quick_chat.Prelude.{
  ℕ, zero, suc, ◌+◌, ◌==◌, Bool, true, false, not, ◌||◌, List, [], ◌∷◌, ◌++◌, Option, none, some,
  ◌≡◌, Bytes, bytes_key, bytes_eq, codes, ℤ, pos, negsuc, eqb_ℤ, if◌then◌else◌, Outcome, done,
  blocked, threw, crashed, M, ◌>>=◌, ◌>>◌, and_then, return,
}
use quick_chat.Common.ErrorCodes.{
  success, error_json, rpc_failed, verify_expired, verify_code_err, user_exist, passwd_err,
  email_not_match, passwd_up_failed, passwd_invalid,
}
use quick_chat.Common.Text.{to_string}
use quick_chat.Common.Redis.Server.{RedisServer}
use quick_chat.Common.Redis.Commands.{RedisMgr, get}
use quick_chat.Common.Mysql.Dao.{SqlServer, MysqlDao, UserInfo}
use quick_chat.Common.Mysql.Manager.{reg_user, check_email, update_pwd, check_pwd}
use quick_chat.Gate.Clients.{Remote, Client, GetVerifyRsp, GetChatServerRsp}
use quick_chat.Gate.Clients
use quick_chat.Gate.Query.{Params}

-- What the handlers use of JsonCpp: `Reader::parse`, `operator[]` with a member's name and
-- `asString`. The last two throw where the value is of another type.
pub record JsonLib : Type 1 where
  pub Value : Type 0
  pub parse : Bytes → Option Value
  pub member : Value → Bytes → Option Value
  pub as_string : Value → Option Bytes

-- All that is outside the handlers.
pub record Outside : Type 1 where
  pub json : JsonLib
  pub redis_server : RedisServer
  pub sql_server : SqlServer
  pub remote : Remote

-- A member of the answer: a number, a text or a copy of a value.
pub data Item (V : Type 0) : Type 0 where
  number : ℤ → Item V
  text : Bytes → Item V
  copy : V → Item V

-- What is written to the body of the response: the members of an answer, which `toStyledString`
-- prints, or a text.
pub data Chunk (V : Type 0) : Type 0 where
  document : List (Bytes × Item V) → Chunk V
  raw : Bytes → Chunk V

module _ (out : Outside) where
  abbrev pub Json : Type 0
  Json = out.json.Value

  abbrev pub Root : Type 0
  Root = List (Bytes × Item Json)

  -- What a handler can change: the response, and the parts of the gate server behind it.
  pub record Context : Type 0 where
    pub json_type : Bool
    pub body : List (Chunk Json)
    pub redis : RedisMgr out.redis_server
    pub mysql : MysqlDao out.sql_server
    pub verify_client : Client out.remote
    pub status_client : Client out.remote

  abbrev pub H : Type 0 → Type 0
  H A = M Context A

  on_redis : {A : Type 0} → M (RedisMgr out.redis_server) A → H A
  on_redis m s = let r = m s.redis in (r.0, record s { redis = r.1 })

  on_mysql : {A : Type 0} → M (MysqlDao out.sql_server) A → H A
  on_mysql m s = let r = m s.mysql in (r.0, record s { mysql = r.1 })

  on_verify : {A : Type 0} → M (Client out.remote) A → H A
  on_verify m s = let r = m s.verify_client in (r.0, record s { verify_client = r.1 })

  on_status : {A : Type 0} → M (Client out.remote) A → H A
  on_status m s = let r = m s.status_client in (r.0, record s { status_client = r.1 })

  -- `beast::ostream(response_.body()) << root.toStyledString()`
  write_doc : Root → H (Unit {0})
  write_doc root s = (done tt, record s { body = s.body ++ document root ∷ [] })

  abbrev pub error_doc : ℤ → Root
  error_doc code = (codes "error", number code) ∷ []

  -- `response_.set(content_type, "text/json")`
  set_json : H (Unit {0})
  set_json s = (done tt, record s { json_type = true })

  or_throw : {A : Type 0} → Option A → H A
  or_throw none s = (threw, s)
  or_throw (some a) s = (done a, s)

  -- `src_root[key]` and `src_root[key].asString()`
  member_of : Json → Bytes → H Json
  unfolding or_throw
  member_of src key = or_throw (out.json.member src key)

  string_of : Json → Bytes → H Bytes
  unfolding or_throw member_of
  string_of src key = do v ← member_of src key; or_throw (out.json.as_string v)

  -- The frame of every POST handler: a body that does not parse is answered at once.
  unfoldable pub with_json : (Json → H (Unit {0})) → Bytes → H (Unit {0})
  unfolding set_json write_doc
  with_json handle body = do
    set_json
    elim (out.json.parse body) [ none ↦ write_doc (error_doc error_json) | some src ↦ handle src ]

  -- "/get_verifycode"
  unfoldable pub get_verifycode : Json → H (Unit {0})
  unfolding string_of member_of on_verify write_doc
  get_verifycode src = do
    email ← string_of src (codes "email")
    rsp ← on_verify (Clients.get_verify_code out.remote email)
    copied ← member_of src (codes "email")
    write_doc ((codes "error", number rsp.error) ∷ (codes "email", copy copied) ∷ [])

  -- `verify_prefix` is the value of the configuration for the keys of the codes.
  module _ (verify_prefix : Bytes) where
    -- "/user_register", from the lookup of the verification code on.
    registered : Json → Bytes → Bytes → Bytes → Bytes → ℤ → H (Unit {0})
    unfolding string_of write_doc
    registered src email name pwd confirm uid =
        if eqb_ℤ uid (pos 0) || eqb_ℤ uid (negsuc 0) then write_doc (error_doc user_exist) else (do
          code ← string_of src (codes "verifycode")
          write_doc (
              (codes "error", number success)
              ∷ (codes "uid", number uid)
              ∷ (codes "email", text email)
              ∷ (codes "user", text name)
              ∷ (codes "passwd", text pwd)
              ∷ (codes "confirm", text confirm)
              ∷ (codes "verifycode", text code)
              ∷ []))

    compare_code : Bool → H (Unit {0}) → H (Unit {0})
    unfolding write_doc
    compare_code same go_on = if not same then write_doc (error_doc verify_code_err) else go_on

    pub verified : Json → Bool × Bytes → H (Unit {0}) → H (Unit {0})
    unfolding string_of write_doc compare_code
    verified src (found, verify_code) go_on =
        if not found then write_doc (error_doc verify_expired) else (do
          code ← string_of src (codes "verifycode")
          compare_code (bytes_eq verify_code code) go_on)

    -- A wrong confirmation is written to the response, and the handler goes on.
    pub user_register : Json → H (Unit {0})
    unfolding string_of write_doc on_redis on_mysql registered verified
    user_register src = do
      email ← string_of src (codes "email")
      name ← string_of src (codes "user")
      pwd ← string_of src (codes "passwd")
      confirm ← string_of src (codes "confirm")
      if not (bytes_eq pwd confirm) then write_doc (error_doc passwd_err) else return tt
      again ← string_of src (codes "email")
      got ← on_redis (get out.redis_server (verify_prefix ++ again) [])
      verified src got (do
        uid ← on_mysql (reg_user out.sql_server name email pwd)
        registered src email name pwd confirm uid)

    -- "/reset_pwd", after the update.
    pub updated : Json → Bytes → Bytes → Bytes → Bool → H (Unit {0})
    unfolding string_of write_doc
    updated src email name pwd b_up =
        if not b_up then write_doc (error_doc passwd_up_failed) else (do
          code ← string_of src (codes "verifycode")
          write_doc (
              (codes "error", number success)
              ∷ (codes "email", text email)
              ∷ (codes "user", text name)
              ∷ (codes "passwd", text pwd)
              ∷ (codes "verifycode", text code)
              ∷ []))

    -- "/reset_pwd", after the check of the email.
    reset : Json → Bytes → Bytes → Bytes → Bool → H (Unit {0})
    unfolding string_of write_doc on_mysql updated
    reset src email name pwd email_valid =
        if not email_valid then write_doc (error_doc email_not_match) else (do
          b_up ← on_mysql (update_pwd out.sql_server name pwd)
          updated src email name pwd b_up)

    pub reset_pwd : Json → H (Unit {0})
    unfolding string_of on_redis on_mysql verified reset
    reset_pwd src = do
      email ← string_of src (codes "email")
      name ← string_of src (codes "user")
      pwd ← string_of src (codes "passwd")
      got ← on_redis (get out.redis_server (verify_prefix ++ email) [])
      verified src got (do
        email_valid ← on_mysql (check_email out.sql_server name email)
        reset src email name pwd email_valid)

  -- "/user_login", after the check of the password. The port of the reply is not passed on.
  signed_in : Bytes → UserInfo → GetChatServerRsp → H (Unit {0})
  unfolding write_doc
  signed_in name info reply =
      if not (eqb_ℤ reply.error (pos 0))
      then write_doc (error_doc rpc_failed)
      else write_doc (
          (codes "error", number success)
          ∷ (codes "user", text name)
          ∷ (codes "uid", number info.uid)
          ∷ (codes "token", text reply.token)
          ∷ (codes "host", text reply.host)
          ∷ [])

  checked : Bytes → Bool × UserInfo → H (Unit {0})
  unfolding write_doc on_status signed_in
  checked name (pwd_valid, info) =
      if not pwd_valid then write_doc (error_doc passwd_invalid) else (do
        reply ← on_status (Clients.get_chat_server out.remote info.uid)
        signed_in name info reply)

  -- The `UserInfo` before the call is not initialised; `blank` stands for it.
  pub user_login : UserInfo → Json → H (Unit {0})
  unfolding string_of on_mysql checked
  user_login blank src = do
    name ← string_of src (codes "user")
    pwd ← string_of src (codes "passwd")
    got ← on_mysql (check_pwd out.sql_server name pwd blank)
    checked name got

  -- "/get_test": the parameters in the order of the map, numbered from 1.
  unfoldable pub write_params : ℕ → Params → List (Chunk Json)
  write_params i [] = []
  write_params i ((key, value) ∷ ps) =
      raw (codes "param" ++ (to_string (pos (i + 1)) ++ (codes "key is" ++ key)))
      ∷ raw (codes ", " ++ (codes "value is " ++ (value ++ 10 ∷ [])))
      ∷ write_params (i + 1) ps

  unfoldable pub get_test : Params → H (Unit {0})
  unfolding write_params
  get_test params s = (
    done tt,
    record s {
      body = s.body ++ (raw (codes "receieve get_test req" ++ 10 ∷ []) ∷ write_params 0 params);
    },
  )

  -- The tables: `get_handlers_` and `post_handlers_`. A GET handler reads the parameters, a POST
  -- handler the body of the request.
  pub record Tables : Type 0 where
    pub get_handlers : List (Bytes × (Params → H (Unit {0})))
    pub post_handlers : List (Bytes × (Bytes → H (Unit {0})))

  -- `RegGet` and `RegPost`
  reg_get : Bytes → (Params → H (Unit {0})) → Tables → Tables
  reg_get url handler t = record t { get_handlers = insert_new url handler t.get_handlers }

  reg_post : Bytes → (Bytes → H (Unit {0})) → Tables → Tables
  reg_post url handler t = record t { post_handlers = insert_new url handler t.post_handlers }

  -- `LogicSystem::LogicSystem`
  unfoldable pub make_tables : Bytes → UserInfo → Tables
  unfolding reg_get reg_post
  make_tables verify_prefix blank = reg_post (codes "/user_login") (with_json (user_login blank)) (
      reg_post (codes "/reset_pwd") (with_json (reset_pwd verify_prefix)) (
        reg_post (codes "/user_register") (with_json (user_register verify_prefix)) (
          reg_post (codes "/get_verifycode") (with_json get_verifycode) (
            reg_get (codes "/get_test") get_test
              (record { get_handlers = []; post_handlers = [] })))))

  -- `HandleGet` and `HandlePost`
  unfoldable pub handle_get : Tables → Bytes → Params → H Bool
  handle_get t path params = elim (lookup path t.get_handlers) [
    | none ↦ return false
    | some handler ↦ (handler params >> return true)
  ]

  unfoldable pub handle_post : Tables → Bytes → Bytes → H Bool
  handle_post t path body = elim (lookup path t.post_handlers) [
    | none ↦ return false
    | some handler ↦ (handler body >> return true)
  ]
