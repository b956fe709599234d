-- ===== src/Startup/Build.antt =====
-- The constructors that read the configuration: `StatusGrpcClient` and `VerifyGrpcClient` of
-- servers/GateServer/src, `MysqlDao` of servers/common/src/MysqlDao.cpp, `RedisMgr` of
-- servers/common/src/RedisMgr.cpp. `ConfigMgr::operator[]` puts a missing key in, so a read gives
-- the configuration back too.
pub mod RedisRead
use quick_chat.Prelude.{
  ℕ, List, [], ◌∷◌, ◌++◌, map, Option, none, some, ◌≡◌, refl, sym, ap, ◌∙◌, Bytes, codes, ℤ,
  Outcome, threw,
}
use quick_chat.Common.Config.{ConfigMap, config_index}
use quick_chat.Common.Config.Reads.{config_index_keeps}
use quick_chat.Common.RpcPool as Rpc
use quick_chat.Common.RpcPool.{RpConPool}
use quick_chat.Common.Mysql.Pool as Mysql
use quick_chat.Common.Mysql.Pool.{MySqlPool, Driver}
use quick_chat.Common.Redis.Pool as Redis
use quick_chat.Common.Redis.Pool.{RedisConPool, Link}

-- `host + ":" + port`
pub address : Bytes → Bytes → Bytes
address host port = host ++ b':' ∷ port

-- `StatusGrpcClient::StatusGrpcClient` and `VerifyGrpcClient::VerifyGrpcClient`, which differ in the
-- section. `new_stub target n`: the n-th stub of a new pool, over a channel to `target`.
pub make_client : (Bytes → ℕ → ℕ) → Bytes → ConfigMap → RpConPool × ConfigMap
unfolding address
make_client new_stub section cfg =
    let host = config_index section (codes "Host") cfg in
    let port = config_index section (codes "Port") host.1 in
    (Rpc.make_pool (new_stub (address host.0 port.0)) 5, port.1)

-- `MysqlDao::MysqlDao`. `driver url user pwd schema`: the driver with those arguments; `now`: the
-- time, in seconds.
make_dao : (Bytes → Bytes → Bytes → Bytes → Driver) → ℕ → ConfigMap → MySqlPool × ConfigMap
unfolding address
make_dao driver now cfg =
    let host = config_index (codes "Mysql") (codes "Host") cfg in
    let port = config_index (codes "Mysql") (codes "Port") host.1 in
    let pwd = config_index (codes "Mysql") (codes "Passwd") port.1 in
    let schema = config_index (codes "Mysql") (codes "Schema") pwd.1 in
    let user = config_index (codes "Mysql") (codes "User") schema.1 in
    (Mysql.make_pool (driver (address host.0 port.0) user.0 pwd.0 schema.0) now 5, user.1)

-- `pwd == "" ? nullptr : pwd.c_str()`
unfoldable pub password : Bytes → Option Bytes
password [] = none
password (c ∷ pwd) = some (c ∷ pwd)

-- `RedisMgr::RedisMgr`. `int_of`: `lexical_cast<int>`, none where it throws. `link host port`:
-- hiredis for connections to there. The pool takes the password as it is here; see the pool for
-- what it does with it.
unfoldable pub with_port :
    (Bytes → ℤ → Link) → Bytes → Bytes → ConfigMap → Option ℤ → Outcome RedisConPool × ConfigMap
unfolding password Redis.make_pool
with_port link host pwd cfg none = (threw, cfg)
with_port link host pwd cfg (some port) = (Redis.make_pool (link host port) 5 (password pwd), cfg)

unfoldable pub make_redis :
    (Bytes → Option ℤ) → (Bytes → ℤ → Link) → ConfigMap → Outcome RedisConPool × ConfigMap
unfolding with_port
make_redis int_of link cfg =
    let host = config_index (codes "Redis") (codes "Host") cfg in
    let port = config_index (codes "Redis") (codes "Port") host.1 in
    let pwd = config_index (codes "Redis") (codes "Passwd") port.1 in
    with_port link host.0 pwd.0 pwd.1 (int_of port.0)

-- `server_address` in servers/StatusServer/src/main.cpp.
pub server_address : ConfigMap → Bytes × ConfigMap
unfolding address
server_address cfg =
    let host = config_index (codes "StatusServer") (codes "Host") cfg in
    let port = config_index (codes "StatusServer") (codes "Port") host.1 in
    (address host.0 port.0, port.1)

-- The configuration of a server that has read some keys.
pub after_reads : List (Bytes × Bytes) → ConfigMap → ConfigMap
after_reads [] cfg = cfg
after_reads ((section, key) ∷ reads) cfg = after_reads reads (config_index section key cfg).1

after_reads_lem :
    (reads : List (Bytes × Bytes)) (section key : Bytes) (cfg : ConfigMap)
    → (config_index section key (after_reads reads cfg)).0 ≡ (config_index section key cfg).0
unfolding after_reads
after_reads_lem [] section key cfg = refl
after_reads_lem ((s, k) ∷ reads) section key cfg =
    after_reads_lem reads section key (config_index s k cfg).1
    ∙ config_index_keeps s k section key cfg

server_address-after_reads :
    (reads : List (Bytes × Bytes)) (cfg : ConfigMap)
    → (server_address (after_reads reads cfg)).0
      ≡ address
          (config_index (codes "StatusServer") (codes "Host") cfg).0
          (config_index (codes "StatusServer") (codes "Port") cfg).0
unfolding server_address
server_address-after_reads reads cfg =
    rw
      (
        config_index_keeps (codes "StatusServer") (codes "Host") (codes "StatusServer")
            (codes "Port") (after_reads reads cfg),
        after_reads_lem reads (codes "StatusServer") (codes "Host") cfg,
        after_reads_lem reads (codes "StatusServer") (codes "Port") cfg,
      )
      refl

client_connections :
    (new_stub : Bytes → ℕ → ℕ) (cfg : ConfigMap)
    → (make_client new_stub (codes "StatusServer") cfg).0.connections
      ≡ map (new_stub (server_address cfg).0) (0 ∷ 1 ∷ 2 ∷ 3 ∷ 4 ∷ [])
unfolding make_client server_address Rpc.make_pool
client_connections new_stub cfg = refl

-- Whatever keys the gate and the status server have read before, each of them from its own copy of
-- the same configuration, the five stubs of the gate's status client are on channels to the
-- address that the status server listens on.
pub make_client-server_address :
    (new_stub : Bytes → ℕ → ℕ) (gate_reads status_reads : List (Bytes × Bytes)) (cfg : ConfigMap)
    → (make_client new_stub (codes "StatusServer") (after_reads gate_reads cfg)).0.connections
      ≡ map (new_stub (server_address (after_reads status_reads cfg)).0) (0 ∷ 1 ∷ 2 ∷ 3 ∷ 4 ∷ [])
make_client-server_address new_stub gate_reads status_reads cfg =
    client_connections new_stub (after_reads gate_reads cfg)
    ∙ ap (λ target. map (new_stub target) (0 ∷ 1 ∷ 2 ∷ 3 ∷ 4 ∷ []))
        (server_address-after_reads gate_reads cfg
          ∙ sym (server_address-after_reads status_reads cfg))
