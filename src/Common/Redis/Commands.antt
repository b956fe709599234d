-- ===== src/Common/Redis/Commands.antt =====
-- servers/common/src/RedisMgr.cpp: the class `RedisMgr`. A `bool` result with an out parameter is a
-- pair: the out parameter keeps the caller's value where the code does not write it.
-- `freeReplyObject` and the prints change nothing that is modelled.
use quick_chat.Prelude.{
  ℕ, ◌==◌, Bool, true, false, not, ◌&&◌, ◌||◌, List, [], ◌∷◌, Option, none, some, Bytes, codes,
  bytes_eq, pos, ltb_ℤ, eqb_ℤ, if◌then◌else◌, take, Outcome, done, crashed, M, ◌>>=◌, and_then,
}
use quick_chat.Common.Redis.Server.{
  Connection, Reply, RedisServer, reply_string, reply_integer, reply_nil, reply_status, reply_error,
  c_str,
}
use quick_chat.Common.Redis.Pool.{RedisConPool, get_connection, close}

module _ (srv : RedisServer) where
  -- The manager with the server that it talks to.
  pub record RedisMgr : Type 0 where
    pub con_pool : RedisConPool
    pub db : srv.Db

  -- `con_pool_->getConnection()`
  pub connect : M RedisMgr (Option Connection)
  connect s = let r = get_connection s.con_pool in (r.0, record s { con_pool = r.1 })

  unfoldable pub send : Connection → List Bytes → M RedisMgr (Option Reply)
  send c words s = let r = srv.command c words s.db in (done r.0, record s { db = r.1 })

  after_connect :
      {A : Type 0} → A → List Bytes → (Option Reply → Outcome A) → Option Connection → M RedisMgr A
  after_connect failed words use_reply none s = (done failed, s)
  after_connect failed words use_reply (some c) s =
      and_then (send c words s) (λ reply s'. (use_reply reply, s'))

  -- The frame of every command: a connection, or the given result where it is null; then the words
  -- go out on it, and the reply to the rest of the method.
  unfoldable pub with_reply :
      {A : Type 0} → A → List Bytes → (Option Reply → Outcome A) → M RedisMgr A
  unfolding connect send after_connect
  with_reply failed words use_reply = connect >>= after_connect failed words use_reply

-- `value = reply->str`: a null pointer is undefined behaviour.
read_str : Option Bytes → Outcome (Bool × Bytes)
read_str none = crashed
read_str (some s) = done (true, c_str s)

unfoldable pub read_get : Bytes → Option Reply → Outcome (Bool × Bytes)
unfolding read_str
read_get value none = done (false, value)
read_get value (some r) =
    if not (r.kind == reply_string) then done (false, value) else read_str r.str

-- The test of `Set` assigns: `type = (REDIS_REPLY_STATUS && (str is "OK" or "ok"))`.
read_set_str : Option Bytes → Outcome Bool
read_set_str none = crashed
read_set_str (some s) =
    let is_ok = bytes_eq (c_str s) (codes "OK") || bytes_eq (c_str s) (codes "ok") in
    let kind : ℕ = if not (reply_status == 0) && is_ok then 1 else 0 in
    if not (not (kind == 0)) then done false else done true

unfoldable pub read_set : Option Reply → Outcome Bool
unfolding read_set_str
read_set none = done false
read_set (some r) = read_set_str r.str

unfoldable pub read_auth : Option Reply → Outcome Bool
read_auth none = crashed
read_auth (some r) = if r.kind == reply_error then done false else done true

-- `LPush` and `RPush`
unfoldable pub read_push : Option Reply → Outcome Bool
read_push none = done false
read_push (some r) =
    if not (r.kind == reply_integer) || not (ltb_ℤ (pos 0) r.integer) then done false else done true

-- `LPop` and `RPop`
unfoldable pub read_pop : Bytes → Option Reply → Outcome (Bool × Bytes)
unfolding read_str
read_pop value none = done (false, value)
read_pop value (some r) = if r.kind == reply_nil then done (false, value) else read_str r.str

-- `HSet` and `Del`
unfoldable pub read_integer : Option Reply → Outcome Bool
read_integer none = done false
read_integer (some r) = if not (r.kind == reply_integer) then done false else done true

read_hget_str : Option Bytes → Outcome Bytes
read_hget_str none = crashed
read_hget_str (some s) = done (c_str s)

unfoldable pub read_hget : Option Reply → Outcome Bytes
unfolding read_hget_str
read_hget none = done []
read_hget (some r) = if r.kind == reply_nil then done [] else read_hget_str r.str

unfoldable pub read_exists : Option Reply → Outcome Bool
read_exists none = done false
read_exists (some r) =
    if not (r.kind == reply_integer) || eqb_ℤ r.integer (pos 0) then done false else done true

module _ (srv : RedisServer) where
  unfoldable pub get : Bytes → Bytes → M (RedisMgr srv) (Bool × Bytes)
  get key value = with_reply srv (false, value) (codes "GET" ∷ c_str key ∷ []) (read_get value)

  unfoldable pub set : Bytes → Bytes → M (RedisMgr srv) Bool
  set key value = with_reply srv false (codes "SET" ∷ c_str key ∷ c_str value ∷ []) read_set

  unfoldable pub auth : Bytes → M (RedisMgr srv) Bool
  auth password = with_reply srv false (codes "AUTH" ∷ c_str password ∷ []) read_auth

  unfoldable pub lpush : Bytes → Bytes → M (RedisMgr srv) Bool
  lpush key value = with_reply srv false (codes "LPUSH" ∷ c_str key ∷ c_str value ∷ []) read_push

  unfoldable pub lpop : Bytes → Bytes → M (RedisMgr srv) (Bool × Bytes)
  lpop key value = with_reply srv (false, value) (codes "LPOP" ∷ c_str key ∷ []) (read_pop value)

  unfoldable pub rpush : Bytes → Bytes → M (RedisMgr srv) Bool
  rpush key value = with_reply srv false (codes "RPUSH" ∷ c_str key ∷ c_str value ∷ []) read_push

  unfoldable pub rpop : Bytes → Bytes → M (RedisMgr srv) (Bool × Bytes)
  rpop key value = with_reply srv (false, value) (codes "RPOP" ∷ c_str key ∷ []) (read_pop value)

  unfoldable pub hset : Bytes → Bytes → Bytes → M (RedisMgr srv) Bool
  hset key hkey value =
      with_reply srv false (codes "HSET" ∷ c_str key ∷ c_str hkey ∷ c_str value ∷ []) read_integer

  -- The overload with a length: the value may hold zero bytes.
  unfoldable pub hset_bytes : Bytes → Bytes → Bytes → ℕ → M (RedisMgr srv) Bool
  hset_bytes key hkey hvalue hvaluelen =
      with_reply srv false (codes "HSET" ∷ c_str key ∷ c_str hkey ∷ take hvaluelen hvalue ∷ [])
        read_integer

  unfoldable pub hget : Bytes → Bytes → M (RedisMgr srv) Bytes
  hget key hkey = with_reply srv [] (codes "HGET" ∷ key ∷ hkey ∷ []) read_hget

  unfoldable pub del : Bytes → M (RedisMgr srv) Bool
  del key = with_reply srv false (codes "DEL" ∷ c_str key ∷ []) read_integer

  unfoldable pub exists_key : Bytes → M (RedisMgr srv) Bool
  exists_key key = with_reply srv false (codes "exists" ∷ c_str key ∷ []) read_exists

  unfoldable close_mgr : M (RedisMgr srv) Unit
  close_mgr s = let r = close s.con_pool in (r.0, record s { con_pool = r.1 })
