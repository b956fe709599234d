-- ===== src/Common/Redis/Server.antt =====
-- What servers/common/src/RedisMgr.cpp uses of hiredis and of the Redis server behind it.
use quick_chat.Prelude.{ℕ, ◌==◌, List, [], ◌∷◌, Option, Bytes, ℤ, if◌then◌else◌}

-- `redisReply`: its type, `str` (none is a null pointer) and `integer`.
pub record Reply : Type 0 where
  pub kind : ℕ
  pub str : Option Bytes
  pub integer : ℤ

-- The reply types of hiredis/read.h.
abbrev pub reply_string : ℕ
reply_string = 1

abbrev pub reply_integer : ℕ
reply_integer = 3

abbrev pub reply_nil : ℕ
reply_nil = 4

abbrev pub reply_status : ℕ
reply_status = 5

abbrev pub reply_error : ℕ
reply_error = 6

-- A connection stands for a `redisContext*`.
abbrev pub Connection : Type 0
Connection = ℕ

-- `redisCommand` and `redisCommandArgv`: the words of a command go out on a connection, and the
-- reply comes back, or none for a null pointer.
pub record RedisServer : Type 1 where
  pub Db : Type 0
  pub command : Connection → List Bytes → Db → Option Reply × Db

-- `std::string::c_str` as a C function reads it: up to the first zero byte.
unfoldable pub c_str : Bytes → Bytes
c_str [] = []
c_str (c ∷ s) = let rest = c_str s in if c == 0 then [] else c ∷ rest
