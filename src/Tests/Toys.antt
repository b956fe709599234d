-- ===== src/Tests/Toys.antt =====
-- Small stand-ins for what lies outside the servers: a Redis, a MySQL and a JSON library.
use quick_chat.Prelude.Assoc.{lookup, insert, lookup-insert}
use quick_chat.Prelude.{
  ℕ, true, false, List, [], ◌∷◌, Option, none, some, refl, arith, Bytes, bytes_key, bytes_eq,
  bytes_eq_self, codes, ℤ, pos, if◌then◌else◌,
}
use quick_chat.Common.Redis.Server.{Reply, RedisServer, reply_nil}
use quick_chat.Common.Redis.Pool.{RedisConPool}
use quick_chat.Common.Redis.Commands.{RedisMgr}
use quick_chat.Common.Redis.RoundTrip.{ok_reply, string_reply, KeepsStrings}
use quick_chat.Together.Passwords.{KeepsPasswords}
use quick_chat.Verify.Service.Stored.{KeepsCodes}
use quick_chat.Common.Mysql.Pool.{SqlConnection}
use quick_chat.Common.Mysql.Dao.{value, sql_exception, UserInfo, UserRow, SqlServer, MysqlDao}
use quick_chat.Gate.Clients.{Remote, Client, GetChatServerRsp}
use quick_chat.Gate.Logic.{Outside, Context}

abbrev Strings : Type 0
Strings = List (Bytes × Bytes)

abbrev pub answer : Option Bytes → Option Reply
answer none = some (record { kind = reply_nil; str = none; integer = pos 0 })
answer (some v) = some (string_reply v)

-- SET, SETEX and GET on strings, without their expiry; the fields of every hash lie beside them.
abbrev pub redis_command : List Bytes → Strings → Option Reply × Strings
redis_command (cmd ∷ k ∷ v ∷ []) db =
    if bytes_eq cmd (codes "SET")
    then (some ok_reply, insert k v db)
    else (answer (lookup v db), db)
redis_command (cmd ∷ k ∷ time ∷ v ∷ []) db = (some ok_reply, insert k v db)
redis_command (cmd ∷ k ∷ []) db = (answer (lookup k db), db)
redis_command words db = (none, db)

abbrev pub toy_redis : RedisServer
toy_redis = record { Db = Strings; command = λ c words db. redis_command words db }

pub toy_keeps : KeepsStrings toy_redis
unfolding bytes_eq
toy_keeps = record {
  set_answers_ok = λ c k v d. refl;
  get_after_set = λ c e k v d. ground (arith, lookup-insert k k v d, bytes_eq_self k);
}

pub toy_codes : KeepsCodes toy_redis
unfolding bytes_eq
toy_codes = record {
  get_after_setex =
      λ c e k time v d r answers ok. ground (arith, lookup-insert k k v d, bytes_eq_self k);
}

abbrev pub redis_pool : List ℕ → RedisConPool
redis_pool cs = record {
  b_stop = false;
  pool_size = 5;
  pwd = none;
  connections = cs;
  counter = 0;
  joined = false;
}

abbrev pub redis_with : Strings → List ℕ → RedisMgr toy_redis
redis_with db cs = record { con_pool = redis_pool cs; db = db }

abbrev Users : Type 0
Users = List (Bytes × UserRow)

abbrev row_or : Option UserRow → ℤ
row_or none = pos 7
row_or (some r) = pos 0

abbrev email_of : Option UserRow → Option Bytes
email_of none = none
email_of (some r) = some r.email

abbrev set_pwd : Bytes → Bytes → Option UserRow → Users → Users
set_pwd name pwd none db = db
set_pwd name pwd (some r) db = insert name (record r { pwd = pwd }) db

abbrev pub toy_sql : SqlServer
toy_sql = record {
  Db = Users;
  call_reg_user = λ c name email pwd db. (value (some (row_or (lookup name db))), db);
  select_email = λ c name db. value (email_of (lookup name db));
  update_pwd = λ c name pwd db. (value (pos 0), set_pwd name pwd (lookup name db) db);
  select_user = λ c name db. value (lookup name db);
  past_the_end = sql_exception;
}

pub toy_passwords : KeepsPasswords toy_sql
toy_passwords = record {
  select_after_update = λ c d e name pwd db row rows held updated.
      ground (arith, lookup-insert name name (record row { pwd = pwd }) db, bytes_eq_self name);
}

abbrev pub sql_con : ℕ → SqlConnection
sql_con n = record { con = n; last_oper_time = 100 }

abbrev pub alice_row : UserRow
alice_row = record { pwd = codes "pw"; email = codes "a@x"; uid = pos 3 }

abbrev pub dao_with : List SqlConnection → MysqlDao toy_sql
dao_with cs = record {
  pool = record { b_stop = false; pool_size = 5; pool = cs };
  db = (codes "alice", alice_row) ∷ [];
}

abbrev pub blank_info : UserInfo
blank_info = record { name = []; pwd = []; uid = pos 0; email = [] }

abbrev pub chat_reply : GetChatServerRsp
chat_reply = record {
  error = pos 0;
  host = codes "127.0.0.1";
  port = codes "8090";
  token = codes "tok";
}

abbrev pub toy_remote : Remote
toy_remote = record {
  Peer = Unit {0};
  verify_code =
      λ stub email p. (true, record { error = pos 0; email = email; code = codes "4711" }, tt);
  chat_server = λ stub uid p. (true, chat_reply, tt);
}

abbrev pub client_with : List ℕ → Client toy_remote
client_with cs = record {
  pool = record { b_stop = false; pool_size = 5; connections = cs };
  peer = tt;
}

pub data ToyJson : Type 0 where
  null : ToyJson
  str : Bytes → ToyJson
  obj : Strings → ToyJson

abbrev pub or_null : Option Bytes → ToyJson
or_null none = null
or_null (some s) = str s

abbrev pub toy_member : ToyJson → Bytes → Option ToyJson
toy_member (obj fields) key = some (or_null (lookup key fields))
toy_member null key = some null
toy_member (str s) key = none

abbrev pub toy_string : ToyJson → Option Bytes
toy_string null = some []
toy_string (str s) = some s
toy_string (obj fields) = none

abbrev pub toy_outside : Outside
toy_outside = record {
  json = record {
    Value = ToyJson;
    parse = λ s. some (str s);
    member = toy_member;
    as_string = toy_string;
  };
  redis_server = toy_redis;
  sql_server = toy_sql;
  remote = toy_remote;
}

abbrev pub toy_context : Context toy_outside
toy_context = record {
  json_type = true;
  body = [];
  redis = redis_with ((codes "verify:b@x", codes "4711") ∷ []) (1 ∷ 2 ∷ []);
  mysql = dao_with (sql_con 1 ∷ sql_con 2 ∷ []);
  verify_client = client_with (1 ∷ []);
  status_client = client_with (1 ∷ []);
}
