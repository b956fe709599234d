-- ===== src/Startup/StatusMain/Ends.antt =====
-- How the process of servers/StatusServer/src/main.cpp ends where the constructor of `RedisMgr`
-- returns.
use quick_chat.Prelude.{ℕ, Outcome, and_then}
use quick_chat.Startup.StatusMain.{Process, Surroundings, rest, destroy_redis}

-- The process after `RunServer`.
abbrev ended : Surroundings → Outcome {0} Unit × Process → Outcome {0} ℕ × Process
ended o r = and_then (rest o r) (λ code q. destroy_redis q.redis code q)
