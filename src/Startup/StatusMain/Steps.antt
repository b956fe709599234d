-- ===== src/Startup/StatusMain/Steps.antt =====
-- The steps of `RunServer` and `main` in servers/StatusServer/src/main.cpp.
use quick_chat.Prelude.{true, false, Option, none, some, ◌≡◌, refl, done, blocked, threw, crashed}
use quick_chat.Common.Config.{ConfigMap}
use quick_chat.Common.Redis.Pool.{RedisConPool}
use quick_chat.Common.Singleton.{get_instance, get_instance_made, get_instance_threw}
use quick_chat.Status.Service.{make_servers}
use quick_chat.Startup.Build.{server_address, make_redis}
use quick_chat.Startup.StatusMain.{
  Process, Surroundings, redis_mgr, close_redis, shut_down, wait_signal, wait, build, run_server,
  rest, main,
}

pub redis_mgr_made :
    {pool : RedisConPool} (o : Surroundings) (p : Process)
    → p.redis ≡ none
    → (make_redis o.int_of o.link p.cfg).0 ≡ done pool
    → redis_mgr o p
      ≡ (done pool, record p { redis = some pool; cfg = (make_redis o.int_of o.link p.cfg).1 })
unfolding redis_mgr
redis_mgr_made o p h k = rw (get_instance_made (make_redis o.int_of o.link) p.redis p.cfg h k) refl

pub redis_mgr_threw :
    (o : Surroundings) (p : Process)
    → p.redis ≡ none
    → (make_redis o.int_of o.link p.cfg).0 ≡ threw
    → redis_mgr o p ≡ (threw, record p { redis = none; cfg = (make_redis o.int_of o.link p.cfg).1 })
unfolding redis_mgr
redis_mgr_threw o p h k =
    rw (get_instance_threw (make_redis o.int_of o.link) p.redis p.cfg h k) refl

-- The process after the address has been read, and with a server that serves.
abbrev pub addressed : Process → Process
addressed p = record p { cfg = (server_address p.cfg).1 }

abbrev pub served : Process → Process
served p = record p {
  cfg = (server_address p.cfg).1;
  serving = some ((server_address p.cfg).0, make_servers (server_address p.cfg).1);
  waiting_for_signal = true;
}

pub run_server_threw :
    (o : Surroundings) (p : Process) → o.throws ≡ true → run_server o p ≡ (threw, addressed p)
unfolding run_server
run_server_threw o p t = rw t refl

pub run_server_unbound :
    (o : Surroundings) (p : Process)
    → o.throws ≡ false
    → o.binds (server_address p.cfg).0 ≡ false
    → p.serving ≡ none
    → run_server o p ≡ (
      crashed,
      record p { cfg = (server_address p.cfg).1; serving = none; waiting_for_signal = true },
    )
unfolding run_server build wait
run_server_unbound o p t b h = rw (t, b, h) refl

pub run_server_bound :
    (o : Surroundings) (p : Process)
    → o.throws ≡ false
    → o.binds (server_address p.cfg).0 ≡ true
    → run_server o p ≡ wait o (served p)
unfolding run_server build
run_server_bound o p t b = rw (t, b) refl

pub redis_mgr_kept :
    (o : Surroundings) (p : Process) (pool : RedisConPool)
    → p.redis ≡ some pool
    → redis_mgr o p ≡ (done pool, p)
unfolding redis_mgr get_instance
redis_mgr_kept o p pool h = rw h refl

pub close_redis_threw :
    (o : Surroundings) (p : Process)
    → p.redis ≡ none
    → (make_redis o.int_of o.link p.cfg).0 ≡ threw
    → close_redis o p
      ≡ (threw, record p { redis = none; cfg = (make_redis o.int_of o.link p.cfg).1 })
unfolding close_redis
close_redis_threw o p h k = rw (redis_mgr_threw o p h k) refl

pub main-rest : (o : Surroundings) (p : Process) → main o p ≡ rest o (run_server o p)
unfolding main
main-rest o p = refl

-- The process when the server has stopped.
abbrev pub stopped : ConfigMap → Option RedisConPool → Process
stopped c r = record { cfg = c; redis = r; serving = none; waiting_for_signal = false }

pub signalled :
    (o : Surroundings) (q : Process)
    → o.signal ≡ true
    → wait_signal o q ≡ (done tt, stopped q.cfg q.redis)
unfolding wait_signal shut_down
signalled o q g = rw g refl

pub not_signalled :
    (o : Surroundings) (q : Process) → o.signal ≡ false → wait_signal o q ≡ (blocked, q)
unfolding wait_signal
not_signalled o q g = rw g refl
