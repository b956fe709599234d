-- ===== src/Startup/StatusMain.antt =====
-- servers/StatusServer/src/main.cpp.
pub mod Steps
pub mod Ends
pub mod NoPort
use quick_chat.Prelude.{
  ℕ, zero, suc, ltb, Bool, true, false, Option, none, some, Bytes, if◌then◌else◌, Outcome, done,
  blocked, threw, crashed, M, and_then, ◌>>=◌, return, ℤ,
}
use quick_chat.Common.Config.{ConfigMap, config_index}
use quick_chat.Common.Redis.Pool.{RedisConPool, Link, get_connection, close}
use quick_chat.Common.Singleton.{get_instance, get_instance_made, get_instance_threw}
use quick_chat.Status.Service.{Servers, make_servers}
use quick_chat.Startup.Build.{server_address, make_redis}

-- What the process has: `cfg`, the pool of `RedisMgr` once there is one, whether the gRPC server serves, with its
-- address and its chat servers, and whether the thread of `io_context` runs.
pub record Process : Type 0 where
  pub cfg : ConfigMap
  pub redis : Option RedisConPool
  pub serving : Option (Bytes × Servers)
  pub waiting_for_signal : Bool

-- What gRPC and the system do. `binds`: whether `BuildAndStart` can listen on the address; it gives
-- a null pointer where it cannot. `signal`: whether SIGINT or SIGTERM ever comes. `throws`: whether
-- a call of gRPC, of Boost.Asio or of the thread's constructor throws. `calls`: how many commands
-- of Redis the calls of clients give before the signal, each on a connection that it never returns. `int_of` and `link`: what the constructor of
-- `RedisMgr` asks of Boost and of hiredis.
pub record Surroundings : Type 0 where
  pub binds : Bytes → Bool
  pub signal : Bool
  pub throws : Bool
  pub calls : ℕ
  pub int_of : Bytes → Option ℤ
  pub link : Bytes → ℤ → Link

-- `RedisMgr::GetInstance`
pub redis_mgr : Surroundings → M Process RedisConPool
unfolding get_instance
redis_mgr o p =
    let r = get_instance (make_redis o.int_of o.link) (p.redis, p.cfg) in
    (r.0, record p { redis = r.1.0; cfg = r.1.1 })

-- `RedisMgr::GetInstance()->Close()`
pub close_redis : Surroundings → M Process Unit
unfolding redis_mgr
close_redis o =
    redis_mgr o
    >>= (λ pool (p : Process). ((close pool).0, record p { redis = some (close pool).1 }))

-- The handler of the signal, which the thread of `io_context` runs: `Shutdown` and `stop`.
shut_down : Process → Process
shut_down p = record p { serving = none; waiting_for_signal = false }

-- `server->Wait()` returns once the handler has called `Shutdown`.
pub wait_signal : Surroundings → M Process Unit
unfolding shut_down
wait_signal o p = if o.signal then (done tt, shut_down p) else (blocked, p)

-- The `getConnection` of each of the commands.
unfoldable pub take_calls : ℕ → M RedisConPool Unit
take_calls zero pool = (done tt, pool)
take_calls (suc n) pool = and_then (get_connection pool) (λ c. take_calls n)

-- A call that waits for a connection keeps `Wait` from its end, and also the `Shutdown` of the
-- handler of the signal.
after_taken : Surroundings → Process → Outcome {0} Unit × RedisConPool → Outcome {0} Unit × Process
unfolding wait_signal
after_taken o p (done u, pool) = wait_signal o (record p { redis = some pool })
after_taken o p (blocked, pool) = (blocked, record p { redis = some pool })
after_taken o p (threw, pool) = wait_signal o (record p { redis = some pool })
after_taken o p (crashed, pool) = (crashed, record p { redis = some pool })

-- The calls of clients that come before. What the constructor of `RedisMgr` throws there, gRPC
-- catches.
after_calls : Surroundings → Outcome RedisConPool × Process → Outcome {0} Unit × Process
unfolding wait_signal after_taken take_calls
after_calls o (done pool, p) = after_taken o p (take_calls o.calls pool)
after_calls o (threw, p) = wait_signal o p
after_calls o (blocked, p) = wait_signal o p
after_calls o (crashed, p) = (crashed, p)

-- Whether a client has called.
abbrev pub asked : Surroundings → Bool
asked o = ltb 0 o.calls

-- The server is a null pointer where it could not listen.
pub wait : Surroundings → M Process Unit
unfolding wait_signal after_calls redis_mgr
wait o p = elim p.serving [
  | none ↦ (crashed, p)
  | some served ↦ if asked o then after_calls o (redis_mgr o p) else wait_signal o p
]

-- `BuildAndStart`
build : Surroundings → Bytes → Process → Process
build o at p = if o.binds at then record p { serving = some (at, make_servers p.cfg) } else p

-- `RunServer`. An exception destroys the server on its way out.
pub run_server : Surroundings → M Process Unit
unfolding wait build
run_server o p =
    let address = server_address p.cfg in
    let started = build o address.0 (record p { cfg = address.1 }) in
    if o.throws
    then (threw, record p { cfg = address.1 })
    else wait o (record started { waiting_for_signal = true })

-- The handler of `main`'s `catch`: what it throws itself ends the process.
end_caught : Outcome {0} Unit × Process → Outcome {0} ℕ × Process
end_caught (done u, p) = (done 1, p)
end_caught (threw, p) = (crashed, p)
end_caught (blocked, p) = (blocked, p)
end_caught (crashed, p) = (crashed, p)

-- The end of `main`, after its `try`: the exit code.
finish : Surroundings → Outcome {0} Unit × Process → Outcome {0} ℕ × Process
unfolding close_redis end_caught
finish o (done u, p) = (done 0, p)
finish o (threw, p) = end_caught (close_redis o p)
finish o (blocked, p) = (blocked, p)
finish o (crashed, p) = (crashed, p)

-- `main` after the call of `RunServer`.
pub rest : Surroundings → Outcome {0} Unit × Process → Outcome {0} ℕ × Process
unfolding finish close_redis
rest o r = finish o (and_then r (λ u. close_redis o))

-- `main`
pub main : Surroundings → M Process ℕ
unfolding run_server rest
main o p = rest o (run_server o p)

-- The destructor of `RedisMgr`, which calls `Close` again; what that throws ends the process.
destroy_redis : Option RedisConPool → ℕ → Process → Outcome {0} ℕ × Process
destroy_redis none code p = (done code, p)
destroy_redis (some pool) code p = elim (close pool).0 [
  | done u ↦ (done code, record p { redis = none })
  | threw ↦ (crashed, p)
  | blocked ↦ (blocked, p)
  | crashed ↦ (crashed, p)
]

-- `main`, and then the destruction of the static pointer of `RedisMgr`.
pub process : Surroundings → M Process ℕ
unfolding destroy_redis
process o p = and_then (main o p) (λ code q. destroy_redis q.redis code q)
