-- ===== src/Together/Codes.antt =====
-- A verification code from servers/VerifyServer/verify_server.py to "/user_register" of
-- servers/GateServer/src/LogicSystem.cpp. Both servers talk to one Redis.
use quick_chat.Prelude.{
  ℕ, true, false, List, [], ◌∷◌, ◌++◌, some, ◌≡◌, ◌≢◌, sym, ap, ◌∙◌, arith, Bytes, ℤ, pos, negsuc,
  Lacks, All-append, codes, done,
}
use quick_chat.Common.Redis.RoundTrip.{string_reply, c_str-Lacks}
use quick_chat.Common.Redis.Pool.{get_connection}
use quick_chat.Common.Redis.Commands.{RedisMgr, get, with_reply, read_get}
use quick_chat.Common.RpcPool as Rpc
use quick_chat.Common.Mysql.Dao.{MysqlDao, reg_user}
use quick_chat.Gate.Clients as Clients
use quick_chat.Gate.Clients.{Client}
use quick_chat.Gate.Logic.{
  Outside, Context, Json, Root, document, number, copy, get_verifycode, user_register,
}
use quick_chat.Gate.Logic.Fields.{TextAt}
use quick_chat.Gate.Logic.Register.{register_doc, complaint, user_register_succeeds}
use quick_chat.Verify.Service.Stored.{KeepsCodes, code_stored}
use quick_chat.Verify.Service.{Service, GetVerifyRsp, get_verify_code}

-- The message of the verification server, as the gate server reads it.
abbrev pub received : GetVerifyRsp → Clients.GetVerifyRsp
received r = record { error = r.error; email = r.email; code = r.code }

module _ (out : Outside) (keeps : KeepsCodes out.redis_server) where
  -- The call of the gate server on a stub is the call of the verification server.
  pub record CarriedOut (stub c : ℕ) (code email : Bytes) (peer : out.remote.Peer)
      (before after : Service out.redis_server) (rsp : GetVerifyRsp) : Type 0 where
    pub served : get_verify_code out.redis_server c code email before ≡ ((true, rsp), after)
    pub ok : (out.remote.verify_code stub email peer).0 ≡ true
    pub message : (out.remote.verify_code stub email peer).1 ≡ received rsp

  abbrev pub code_doc : Json out → Root out
  code_doc email = (codes "error", number (pos 0)) ∷ (codes "email", copy email) ∷ []

  get_verify_code-received :
      (s : Client out.remote) (stub c : ℕ) (stubs : List ℕ) (code email : Bytes)
      (before after : Service out.redis_server) (rsp : GetVerifyRsp)
      → s.pool.b_stop ≡ false
      → s.pool.connections ≡ stub ∷ stubs
      → CarriedOut stub c code email s.peer before after rsp
      → (Clients.get_verify_code out.remote email s).0 ≡ done (received rsp)
  unfolding Clients.get_verify_code Rpc.get_connection Rpc.return_connection
  get_verify_code-received s stub c stubs code email before after rsp running held carried =
      ground (arith, carried.ok, carried.message)

  -- "/get_verifycode" for an email, when the call of the client returns.
  get_verifycode_answers :
      (src : Json out) (email : Bytes) (s : Context out) (rsp : Clients.GetVerifyRsp)
      (has_email : TextAt out src (codes "email") email)
      → (Clients.get_verify_code out.remote email s.verify_client).0 ≡ done rsp
      → get_verifycode out src s ≡ (
        done tt,
        record s {
          body =
              s.body
              ++ document
                  ((codes "error", number rsp.error) ∷ (codes "email", copy has_email.value) ∷ [])
                ∷ [];
          verify_client = (Clients.get_verify_code out.remote email s.verify_client).1;
        },
      )
  unfolding get_verifycode
  get_verifycode_answers src email s rsp has_email called = ground arith

  -- `Get` on a running pool that holds a connection, where the server answers with a text.
  get_answered :
      (key v old : Bytes) (m : RedisMgr out.redis_server) (d : ℕ) (ds : List ℕ)
      → Lacks 0 key
      → Lacks 0 v
      → m.con_pool.b_stop ≡ false
      → m.con_pool.connections ≡ d ∷ ds
      → (out.redis_server.command d (codes "GET" ∷ key ∷ []) m.db).0 ≡ some (string_reply v)
      → (get out.redis_server key old m).0 ≡ done (true, v)
  unfolding get with_reply get_connection read_get
  get_answered key v old m d ds hk hv running held answers =
      ground (arith, c_str-Lacks key hk, c_str-Lacks v hv, answers)

  -- The two requests, one after the other, on a gate server that shares its Redis with the
  -- verification server: the second sees what the first has stored, and has a response of its own.
  abbrev pub second_request : Context out → out.redis_server.Db → Context out
  second_request s db = record s {
    json_type = false;
    body = [];
    redis = record s.redis { db = db };
  }

  -- A registration with the code that Redis answers for the email.
  registers_with :
      (prefix email name pwd confirm code : Bytes) (src : Json out) (u : Context out)
      (db : out.redis_server.Db) (d : ℕ) (ds : List ℕ) (uid : ℤ) (mysql : MysqlDao out.sql_server)
      → TextAt out src (codes "email") email
      → TextAt out src (codes "user") name
      → TextAt out src (codes "passwd") pwd
      → TextAt out src (codes "confirm") confirm
      → TextAt out src (codes "verifycode") code
      → u.redis.con_pool.b_stop ≡ false
      → u.redis.con_pool.connections ≡ d ∷ ds
      → Lacks 0 (prefix ++ email)
      → Lacks 0 code
      → (out.redis_server.command d (codes "GET" ∷ (prefix ++ email) ∷ []) db).0
        ≡ some (string_reply code)
      → reg_user out.sql_server name email pwd u.mysql ≡ (done uid, mysql)
      → uid ≢ pos 0
      → uid ≢ negsuc 0
      → ((user_register out prefix src (second_request u db)).0 ≡ done tt)
        × ((user_register out prefix src (second_request u db)).1.body
            ≡ complaint out pwd confirm
              ++ document (register_doc out email name pwd confirm code uid) ∷ [])
  registers_with prefix email name pwd confirm code src u db d ds uid mysql has_email has_name
        has_pwd has_confirm has_code runs held hk hc found new n0 n1 =
      let m : RedisMgr out.redis_server = record u.redis { db = db } in
      let key : Bytes = prefix ++ email in
      let got = get_answered key code [] m d ds hk hc runs held found in
      let result =
        user_register_succeeds out prefix src email name pwd confirm code (second_request u db)
          has_email has_name has_pwd has_confirm has_code uid (get out.redis_server key [] m).1
          mysql (λ i. (got i, (get out.redis_server key [] m).1)) new n0 n1 in
      (ap (λ r. r.0) result, ap (λ r. r.1.body) result)

  -- The code that the verification server stores is the one that the gate server accepts: for a
  -- request of a code that the verification server carries out, the gate server answers with error
  -- 0 and the email alone; and a registration with all its fields, that code and that email, on
  -- what the two calls leave, is answered with the new user, after the error for a confirmation
  -- that differs, where `RegUser` gives an id that is neither 0 nor -1. So it is if both servers
  -- use the same prefix, Redis keeps codes as documented, the pools are running and each hold a
  -- connection, and prefix, email and code have no zero byte.
  pub code_registers :
      (prefix email name pwd confirm code : Bytes) (first src : Json out) (s : Context out)
      (stub c : ℕ) (stubs : List ℕ) (before after : Service out.redis_server) (rsp : GetVerifyRsp)
      (d : ℕ) (ds : List ℕ) (uid : ℤ) (mysql : MysqlDao out.sql_server)
      (asks : TextAt out first (codes "email") email)
      → TextAt out src (codes "email") email
      → TextAt out src (codes "user") name
      → TextAt out src (codes "passwd") pwd
      → TextAt out src (codes "confirm") confirm
      → TextAt out src (codes "verifycode") code
      → before.prefix ≡ prefix
      → CarriedOut stub c code email s.verify_client.peer before after rsp
      → s.verify_client.pool.b_stop ≡ false
      → s.verify_client.pool.connections ≡ stub ∷ stubs
      → s.redis.con_pool.b_stop ≡ false
      → s.redis.con_pool.connections ≡ d ∷ ds
      → Lacks 0 prefix
      → Lacks 0 email
      → Lacks 0 code
      → reg_user out.sql_server name email pwd s.mysql ≡ (done uid, mysql)
      → uid ≢ pos 0
      → uid ≢ negsuc 0
      → ((get_verifycode out first s).0 ≡ done tt)
        × ((get_verifycode out first s).1.body ≡ s.body ++ document (code_doc asks.value) ∷ [])
        × ((user_register out prefix src (second_request (get_verifycode out first s).1 after.db)).0
            ≡ done tt)
        × ((user_register out prefix src
              (second_request (get_verifycode out first s).1 after.db)).1.body
            ≡ complaint out pwd confirm
              ++ document (register_doc out email name pwd confirm code uid) ∷ [])
  code_registers prefix email name pwd confirm code first src s stub c stubs before after rsp d ds
        uid mysql asks has_email has_name has_pwd has_confirm has_code same carried running held
        redis_runs redis_held hp he hc new n0 n1 =
      let (answer, found) =
        code_stored out.redis_server keeps c d code email before after rsp carried.served in
      let called =
        get_verify_code-received s.verify_client stub c stubs code email before after rsp running
          held carried in
      let one = get_verifycode_answers first email s (received rsp) asks called in
      let kept = ap (λ r. r.1.redis) one in
      let key_found =
        ap (λ p. (out.redis_server.command d (codes "GET" ∷ (p ++ email) ∷ []) after.db).0)
          (sym same)
        ∙ found in
      let (ends, body) =
        registers_with prefix email name pwd confirm code src (get_verifycode out first s).1
          after.db d ds uid mysql has_email has_name has_pwd has_confirm has_code
          (ap (λ (r : RedisMgr out.redis_server). r.con_pool.b_stop) kept ∙ redis_runs)
          (ap (λ (r : RedisMgr out.redis_server). r.con_pool.connections) kept ∙ redis_held)
          (All-append _ prefix email hp he) hc key_found
          (ap (λ r. reg_user out.sql_server name email pwd r.1.mysql) one ∙ new) n0 n1 in
      (
        ap (λ r. r.0) one,
        ap (λ r. r.1.body) one
            ∙ ap
                (λ (e : ℤ).
                  s.body
                  ++ document ((codes "error", number e) ∷ (codes "email", copy asks.value) ∷ [])
                    ∷ [])
                (ap (λ (r : GetVerifyRsp). r.error) answer),
        ends,
        body,
      )
