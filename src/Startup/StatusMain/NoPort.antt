-- ===== src/Startup/StatusMain/NoPort.antt =====
-- How `main` in servers/StatusServer/src/main.cpp ends where the constructor of `RedisMgr` throws.
use quick_chat.Prelude.{
  not, ◌&&◌, Bool-cases, none, ◌≡◌, refl, inl, inr, if◌then◌else◌, done, blocked, threw, crashed,
  codes, ◌∙◌, ap,
}
use quick_chat.Common.Config.{ConfigMap, config_index}
use quick_chat.Startup.Build.{server_address, make_redis}
use quick_chat.Startup.StatusMain.{
  Process, Surroundings, asked, wait_signal, after_calls, wait, end_caught, finish, rest, main,
}
use quick_chat.Startup.StatusMain.Steps.{
  redis_mgr_threw, addressed, served, run_server_threw, run_server_unbound, run_server_bound,
  close_redis_threw, main-rest, stopped, signalled, not_signalled,
}
use quick_chat.Startup.Build.RedisRead.{
  make_redis-server_address, make_redis-again, make_redis_no_port,
}

-- The server has served: every call of a client that needs the pool has thrown.
wait_served_threw :
    (o : Surroundings) (p : Process)
    → p.redis ≡ none
    → (make_redis o.int_of o.link (server_address p.cfg).1).0 ≡ threw
    → (c : ConfigMap) × (wait o (served p)
        ≡ wait_signal o (record (served p) { cfg = c; redis = none }))
      × ((make_redis o.int_of o.link c).0 ≡ threw)
unfolding wait after_calls
wait_served_threw o p k fails =
    let cfg = (server_address p.cfg).1 in
    elim (Bool-cases (asked o)) [
      | inl a ↦ (
        (make_redis o.int_of o.link cfg).1,
        rw (redis_mgr_threw o (served p) k fails, a) refl,
        make_redis-again o.int_of o.link cfg ∙ fails,
      )
      | inr a ↦ (cfg, rw (a, k) refl, fails)
    ]

-- `Close` throws in the `try` and then again in its handler.
rest_aborts :
    (o : Surroundings) (c : ConfigMap)
    → (make_redis o.int_of o.link c).0 ≡ threw
    → (rest o (done tt, stopped c none)).0 ≡ crashed
unfolding rest finish end_caught
rest_aborts o c fails =
    let again = make_redis-again o.int_of o.link c ∙ fails in
    rw
      (
        close_redis_threw o (stopped c none) refl fails,
        close_redis_threw o (stopped (make_redis o.int_of o.link c).1 none) refl again,
      )
      refl

-- With a port of Redis that `lexical_cast` does not take, and from a start with no server and no
-- pool, the status server returns no exit code. It goes on where it serves and no signal comes.
-- Else it crashes: at the null pointer where it cannot listen; and where `RunServer` throws or
-- returns, because `main` calls `RedisMgr::GetInstance` for its `Close` once more in the handler
-- for what that call throws, outside of any `try`.
pub no_port_aborts :
    (o : Surroundings) (p : Process)
    → p.serving ≡ none
    → p.redis ≡ none
    → o.int_of (config_index (codes "Redis") (codes "Port") p.cfg).0 ≡ none
    → (main o p).0 ≡ (
        if not o.throws && (o.binds (server_address p.cfg).0 && not o.signal)
        then blocked
        else crashed)
unfolding rest finish end_caught
no_port_aborts o p h k bad =
    let fails =
      make_redis-server_address o.int_of o.link p.cfg
      ∙ make_redis_no_port o.int_of o.link p.cfg bad in
    elim (Bool-cases o.throws) [
      | inl t ↦
          rw (main-rest o p, run_server_threw o p t, close_redis_threw o (addressed p) k fails, t)
            refl
      | inr t ↦ elim (Bool-cases (o.binds (server_address p.cfg).0)) [
        | inr b ↦ rw (main-rest o p, run_server_unbound o p t b h, t, b) refl
        | inl b ↦
            let (c, ends, still) = wait_served_threw o p k fails in
            let at = main-rest o p ∙ ap (rest o) (run_server_bound o p t b ∙ ends) in
            let q : Process = record (served p) { cfg = c; redis = none } in
            elim (Bool-cases o.signal) [
              | inl g ↦ rw (at, signalled o q g, rest_aborts o c still, t, b, g) refl
              | inr g ↦ rw (at, not_signalled o q g, t, b, g) refl
            ]
      ]
    ]
