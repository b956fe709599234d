-- ===== src/Startup/Build/RedisRead.antt =====
-- `RedisMgr::RedisMgr` of servers/common/src/RedisMgr.cpp, after other reads of the configuration.
use quick_chat.Prelude.{
  List, [], ◌∷◌, ◌++◌, Option, none, some, ◌≡◌, refl, ap, ◌∙◌, Bytes, codes, ℤ, threw,
}
use quick_chat.Common.Config.{ConfigMap, config_index}
use quick_chat.Common.Redis.Pool.{Link}
use quick_chat.Startup.Build.{after_reads, after_reads_lem, with_port, make_redis, server_address}

-- How the constructor ends depends only on what it has read.
with_port_ends :
    (link : Bytes → ℤ → Link) (host pwd : Bytes) (c d : ConfigMap) (port : Option ℤ)
    → (with_port link host pwd c port).0 ≡ (with_port link host pwd d port).0
unfolding with_port
with_port_ends link host pwd c d none = refl
with_port_ends link host pwd c d (some port) = refl

make_redis-read :
    (int_of : Bytes → Option ℤ) (link : Bytes → ℤ → Link) (cfg : ConfigMap)
    → (make_redis int_of link cfg).0
      ≡ (with_port link
          (config_index (codes "Redis") (codes "Host") cfg).0
          (config_index (codes "Redis") (codes "Passwd") cfg).0
          []
          (int_of (config_index (codes "Redis") (codes "Port") cfg).0)).0
unfolding make_redis after_reads
make_redis-read int_of link cfg =
    let before_port : List (Bytes × Bytes) = (codes "Redis", codes "Host") ∷ [] in
    let before_pwd : List (Bytes × Bytes) =
      (codes "Redis", codes "Host") ∷ (codes "Redis", codes "Port") ∷ [] in
    rw
      (
        after_reads_lem before_port (codes "Redis") (codes "Port") cfg,
        after_reads_lem before_pwd (codes "Redis") (codes "Passwd") cfg,
      )
      (with_port_ends link _ _
        (after_reads
          (before_port ++ (codes "Redis", codes "Port") ∷ (codes "Redis", codes "Passwd") ∷ []) cfg)
        [] _)

-- How the constructor of `RedisMgr` ends does not depend on the keys that were read before.
make_redis-after_reads :
    (int_of : Bytes → Option ℤ) (link : Bytes → ℤ → Link) (reads : List (Bytes × Bytes))
    (cfg : ConfigMap)
    → (make_redis int_of link (after_reads reads cfg)).0 ≡ (make_redis int_of link cfg).0
make_redis-after_reads int_of link reads cfg =
    rw
      (
        make_redis-read int_of link (after_reads reads cfg),
        make_redis-read int_of link cfg,
        after_reads_lem reads (codes "Redis") (codes "Host") cfg,
        after_reads_lem reads (codes "Redis") (codes "Port") cfg,
        after_reads_lem reads (codes "Redis") (codes "Passwd") cfg,
      )
      refl

pub make_redis-server_address :
    (int_of : Bytes → Option ℤ) (link : Bytes → ℤ → Link) (cfg : ConfigMap)
    → (make_redis int_of link (server_address cfg).1).0 ≡ (make_redis int_of link cfg).0
unfolding server_address after_reads
make_redis-server_address int_of link cfg =
    make_redis-after_reads int_of link
      ((codes "StatusServer", codes "Host") ∷ (codes "StatusServer", codes "Port") ∷ []) cfg

with_port_cfg :
    (link : Bytes → ℤ → Link) (host pwd : Bytes) (c : ConfigMap) (port : Option ℤ)
    → (with_port link host pwd c port).1 ≡ c
unfolding with_port
with_port_cfg link host pwd c none = refl
with_port_cfg link host pwd c (some port) = refl

-- The constructor ends the same way a second time.
pub make_redis-again :
    (int_of : Bytes → Option ℤ) (link : Bytes → ℤ → Link) (cfg : ConfigMap)
    → (make_redis int_of link (make_redis int_of link cfg).1).0 ≡ (make_redis int_of link cfg).0
make_redis-again int_of link cfg =
    let reads : List (Bytes × Bytes) =
      (codes "Redis", codes "Host")
      ∷ (codes "Redis", codes "Port")
      ∷ (codes "Redis", codes "Passwd")
      ∷ [] in
    let kept : (make_redis int_of link cfg).1 ≡ after_reads reads cfg =
      unfold make_redis after_reads in with_port_cfg link _ _ (after_reads reads cfg) _ in
    ap (λ c. (make_redis int_of link c).0) kept ∙ make_redis-after_reads int_of link reads cfg

pub make_redis_no_port :
    (int_of : Bytes → Option ℤ) (link : Bytes → ℤ → Link) (cfg : ConfigMap)
    → int_of (config_index (codes "Redis") (codes "Port") cfg).0 ≡ none
    → (make_redis int_of link cfg).0 ≡ threw
unfolding with_port
make_redis_no_port int_of link cfg h = rw (make_redis-read int_of link cfg, h) refl
