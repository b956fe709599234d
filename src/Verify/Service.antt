-- ===== src/Verify/Service.antt =====
-- servers/VerifyServer/verify_server.py: `GetVerifyCode`. redis-py raises for a lost connection and
-- for an error reply.
pub mod Stored
use quick_chat.Prelude.{
  ℕ, ◌==◌, Bool, true, false, [], ◌∷◌, ◌++◌, Option, none, some, Bytes, codes, ℤ, pos,
  if◌then◌else◌,
}
use quick_chat.Common.Redis.Server.{Connection, Reply, RedisServer, reply_error}

-- The message of protos/message.proto.
pub record GetVerifyRsp : Type 0 where
  pub error : ℤ
  pub email : Bytes
  pub code : Bytes

-- Whether `await redis_cli.setex(...)` returns.
unfoldable pub returns : Option Reply → Bool
returns none = false
returns (some reply) = if reply.kind == reply_error then false else true

module _ (srv : RedisServer) where
  -- `VERIFY_PREFIX`, and the server behind `redis_cli`.
  pub record Service : Type 0 where
    pub prefix : Bytes
    pub db : srv.Db

  -- `code` is the random text of six digits, and `c` the connection that redis-py takes. The flag is
  -- whether the status of the call is ok: after an exception it is INTERNAL.
  unfoldable pub get_verify_code :
      Connection → Bytes → Bytes → Service → (Bool × GetVerifyRsp) × Service
  unfolding returns
  get_verify_code c code email s =
      let r = srv.command c (codes "SETEX" ∷ (s.prefix ++ email) ∷ codes "300" ∷ code ∷ []) s.db in
      let after : Service = record s { db = r.1 } in
      if returns r.0
      then ((true, record { error = pos 0; email = email; code = code }), after)
      else ((false, record { error = pos 0; email = email; code = [] }), after)
