-- ===== src/Verify/Serve.antt =====
-- `serve` of servers/VerifyServer/verify_server.py, up to the wait for its end.
use quick_chat.Prelude.{
  Bool, ◌++◌, Option, none, some, Bytes, codes, if◌then◌else◌, Outcome, done, threw,
}
use quick_chat.Common.Config.Load.{IniFile}
use quick_chat.Verify.Settings.{config_get, verify_prefix, redis_host, redis_port}

-- The server as it starts.
pub record Started : Type 0 where
  pub listens : Bytes
  pub host : Bytes
  pub port : Bytes
  pub prefix : Bytes

serve_on : (Bytes → Bytes → Bool) → IniFile → Option Bytes → Outcome (Option Started)
serve_on pings ini none = threw
serve_on pings ini (some port) =
    if pings (redis_host ini) (redis_port ini)
    then done (
        some (record {
          listens = codes "[::]:" ++ port;
          host = redis_host ini;
          port = redis_port ini;
          prefix = verify_prefix ini;
        }))
    else done none

-- `serve`: it raises where the port is missing, and returns at once where Redis does not answer at
-- that host and port.
pub serve : (Bytes → Bytes → Bool) → IniFile → Outcome (Option Started)
serve pings ini = serve_on pings ini (config_get (codes "VerifyServer") (codes "Port") ini)
