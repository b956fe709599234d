-- ===== src/Status/Service.antt =====
-- servers/StatusServer/src/StatusServiceImpl.cpp.
pub mod Login
pub mod MinServer
pub mod Servers
pub mod Isolation
use quick_chat.Prelude.Assoc.{insert}
use quick_chat.Prelude.{
  ℕ, zero, suc, ◌+◌, ◌==◌, Bool, true, false, not, List, [], ◌∷◌, ◌++◌, Option, none, some, ◌≡◌,
  Bytes, bytes_key, bytes_eq, codes, ℤ, pos, ltb_ℤ, if◌then◌else◌, Outcome, done, blocked, threw,
  crashed, M, ◌>>=◌, and_then,
}
use quick_chat.Common.ErrorCodes.{
  success, token_invalid, uid_invalid, user_token_prefix, login_count,
}
use quick_chat.Common.Text.{to_string, stoi}
use quick_chat.Common.Config.{ConfigMap, config_index}
use quick_chat.Common.Redis.Server.{RedisServer}
use quick_chat.Common.Redis.Commands.{RedisMgr, get, set, hget}

-- `ChatServer`
pub record ChatServer : Type 0 where
  pub host : Bytes
  pub port : Bytes
  pub name : Bytes
  pub con_count : ℤ

abbrev pub int_max : ℤ
int_max = pos 2147483647

-- `getline` with the delimiter `,`: a last word that is empty is not read.
pub words : Bytes → Bytes → List Bytes
words [] [] = []
words [] (c ∷ word) = (c ∷ word) ∷ []
words (c ∷ s) word = elim (c == b',') [
  | true ↦ word ∷ words s []
  | false ↦ words s (word ++ c ∷ [])
]

abbrev pub Servers : Type 0
Servers = List (Bytes × ChatServer)

-- One word of the list: a server, if the configuration has its name. The configuration is read as
-- it is, since the entries that a read puts in are seen by no later read.
pub add_server : ConfigMap → Bytes → Servers → Servers
add_server cfg word servers =
    let value = λ (key : Bytes). (config_index word key cfg).0 in
    elim (value (codes "Name")) [
      | [] ↦ servers
      | c ∷ name ↦
          insert (c ∷ name)
            (record {
              host = value (codes "Host");
              port = value (codes "Port");
              name = c ∷ name;
              con_count = pos 0;
            })
            servers
    ]

pub add_servers : ConfigMap → List Bytes → Servers → Servers
unfolding add_server
add_servers cfg [] servers = servers
add_servers cfg (word ∷ ws) servers = add_servers cfg ws (add_server cfg word servers)

-- The constructor.
pub make_servers : ConfigMap → Servers
unfolding add_servers words
make_servers cfg =
    add_servers cfg (words (config_index (codes "chatservers") (codes "Name") cfg).0 []) []

-- The messages of protos/message.proto that the service answers with.
pub record GetChatServerRsp : Type 0 where
  pub error : ℤ
  pub host : Bytes
  pub port : Bytes
  pub token : Bytes

pub record LoginRsp : Type 0 where
  pub error : ℤ
  pub uid : ℤ
  pub token : Bytes

module _ (srv : RedisServer) where
  -- `servers_` in the order of its iteration, and the Redis manager.
  pub record Service : Type 0 where
    pub servers : Servers
    pub redis : RedisMgr srv

  pub with_redis : {A : Type 0} → M (RedisMgr srv) A → M Service A
  with_redis m s = let r = m s.redis in (r.0, record s { redis = r.1 })

  -- The count of a server: an `std::stoi` that finds no `int` throws.
  read_count : Bytes → Outcome ℤ
  read_count [] = done int_max
  read_count (c ∷ s) = elim (stoi (c ∷ s)) [ none ↦ threw | some n ↦ done n ]

  pub load_count : Bytes → M Service ℤ
  unfolding with_redis read_count
  load_count name = do
    count_str ← with_redis (hget srv login_count name)
    λ s. (read_count count_str, s)

  -- The state of the loop of `getChatServer`: `minServer` is a reference to the first entry, whose
  -- key is `key`; `seen` are the other entries that the loop has passed.
  pub scan_servers : Bytes → ChatServer → Servers → Servers → M Service ChatServer
  scan_servers key min_server seen [] s =
      (done min_server, record s { servers = (key, min_server) ∷ seen })
  scan_servers key min_server seen ((k, server) ∷ rest) s =
      elim (bytes_eq server.name min_server.name) [
        | true ↦ scan_servers key min_server (seen ++ (k, server) ∷ []) rest s
        | false ↦ and_then (load_count server.name s) (λ count s'.
            let server' : ChatServer = record server { con_count = count } in
            let min' : ChatServer =
              if ltb_ℤ count min_server.con_count then server' else min_server in
            scan_servers key min' (seen ++ (k, server') ∷ []) rest
              (record s' { servers = (key, min') ∷ (seen ++ (k, server') ∷ rest) }))
      ]

  -- `getChatServer`, over the entries. `begin()` of an empty map is dereferenced.
  pub min_of : Servers → M Service ChatServer
  unfolding load_count scan_servers
  min_of [] s = (crashed, s)
  min_of ((key, first) ∷ rest) s = and_then (load_count first.name s) (λ count s'.
      let min_server : ChatServer = record first { con_count = count } in
      scan_servers key min_server [] rest (record s' { servers = (key, min_server) ∷ rest }))

  unfoldable pub pick_server : M Service ChatServer
  unfolding min_of
  pick_server s = min_of s.servers s

  unfoldable pub token_key : ℤ → Bytes
  token_key uid = user_token_prefix ++ to_string uid

  -- `insertToken`: the result of `Set` is not looked at.
  pub insert_token : ℤ → Bytes → M Service Bool
  unfolding with_redis token_key
  insert_token uid token = with_redis (set srv (token_key uid) token)

  -- `GetChatServer`; `uuid` is the fresh random string.
  unfoldable pub get_chat_server : ℤ → Bytes → M Service GetChatServerRsp
  unfolding pick_server insert_token
  get_chat_server uid uuid = do
    server ← pick_server
    stored ← insert_token uid uuid
    λ s.
        (done (record { error = success; host = server.host; port = server.port; token = uuid }), s)

  -- The tests of `Login` on what `Get` gave.
  pub login_answer : ℤ → Bytes → Bool × Bytes → LoginRsp
  login_answer uid token (found, token_value) =
      if found
      then record { error = uid_invalid; uid = pos 0; token = [] }
      else if not (bytes_eq token_value token)
      then record { error = token_invalid; uid = pos 0; token = [] }
      else record { error = success; uid = uid; token = token }

  -- `Login`
  unfoldable pub login : ℤ → Bytes → M Service LoginRsp
  unfolding with_redis token_key login_answer
  login uid token = do
    got ← with_redis (get srv (token_key uid) [])
    λ s. (done (login_answer uid token got), s)
