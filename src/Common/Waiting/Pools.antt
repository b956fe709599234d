-- ===== src/Common/Waiting/Pools.antt =====
-- The three pools behind the interface.
use quick_chat.Prelude.{ℕ, true, ◌≡◌, refl, arith, done}
use quick_chat.Common.Waiting.{PoolOps, Laws}
use quick_chat.Common.Redis.Pool as Redis
use quick_chat.Common.Redis.Pool.{RedisConPool, Link}
use quick_chat.Common.Mysql.Pool as Mysql
use quick_chat.Common.Mysql.Pool.{MySqlPool, SqlConnection, Driver, check_connection}
use quick_chat.Common.RpcPool as Rpc
use quick_chat.Common.Waiting.Kept.{tick_stopped, tick_fewer, check_stopped, check_fewer}
use quick_chat.Common.RpcPool.{RpConPool}

abbrev pub redis_ops : PoolOps
redis_ops = record {
  Pool = RedisConPool;
  Conn = ℕ;
  idle = λ p. p.connections;
  stopped = λ p. p.b_stop;
  ready = Redis.ready;
  get = Redis.get_connection;
  give = Redis.return_connection;
  shut = Redis.set_stop;
  Kept = λ p q. (k : Link) × (Redis.tick k p ≡ done q);
}

abbrev pub mysql_ops : PoolOps
mysql_ops = record {
  Pool = MySqlPool;
  Conn = SqlConnection;
  idle = λ p. p.pool;
  stopped = λ p. p.b_stop;
  ready = Mysql.ready;
  get = Mysql.get_connection;
  give = Mysql.return_connection;
  shut = Mysql.close;
  Kept = λ p q. (d : Driver) × (now : ℕ) × (check_connection d now p ≡ (done tt, q));
}

abbrev pub rpc_ops : PoolOps
rpc_ops = record {
  Pool = RpConPool;
  Conn = ℕ;
  idle = λ p. p.connections;
  stopped = λ p. p.b_stop;
  ready = Rpc.ready;
  get = Rpc.get_connection;
  give = Rpc.return_connection;
  shut = Rpc.close;
  Kept = λ p q. ⊥;
}

-- `RedisConPool` keeps the laws.
pub redis_ops-Laws : Laws redis_ops
unfolding Redis.ready Redis.get_connection Redis.return_connection Redis.set_stop
redis_ops-Laws = record {
  ready_blocked = λ p. (λ h. ground arith, λ h. ground arith);
  empty_waits = λ p h e. ground arith;
  full_ready = λ p c cs h e. ground arith;
  give_idle = λ p c h. ground arith;
  get_stopped = λ p. ground arith;
  give_stopped = λ p c. ground arith;
  shut_stopped = λ p. refl;
  kept_stopped = λ p q r. tick_stopped r.0 p q r.1;
  kept_fewer = λ p q r. tick_fewer r.0 p q r.1;
}

-- `MySqlPool` keeps the laws.
pub mysql_ops-Laws : Laws mysql_ops
unfolding Mysql.ready Mysql.get_connection Mysql.return_connection Mysql.close
mysql_ops-Laws = record {
  ready_blocked = λ p. (λ h. ground arith, λ h. ground arith);
  empty_waits = λ p h e. ground arith;
  full_ready = λ p c cs h e. ground arith;
  give_idle = λ p c h. ground arith;
  get_stopped = λ p. ground arith;
  give_stopped = λ p c. ground arith;
  shut_stopped = λ p. refl;
  kept_stopped = λ p q r. check_stopped r.0 r.1 p q r.2;
  kept_fewer = λ p q r. check_fewer r.0 r.1 p q r.2;
}

-- `RPConPool` keeps the laws.
pub rpc_ops-Laws : Laws rpc_ops
unfolding Rpc.ready Rpc.get_connection Rpc.return_connection Rpc.close
rpc_ops-Laws = record {
  ready_blocked = λ p. (λ h. ground arith, λ h. ground arith);
  empty_waits = λ p h e. ground arith;
  full_ready = λ p c cs h e. ground arith;
  give_idle = λ p c h. ground arith;
  get_stopped = λ p. ground arith;
  give_stopped = λ p c. ground arith;
  shut_stopped = λ p. refl;
  kept_stopped = λ p q r. absurd r;
  kept_fewer = λ p q r. absurd r;
}

-- A stopped `RedisConPool`, and a stopped `RPConPool`, lets everyone through.
pub redis_answers : (p : RedisConPool) → p.b_stop ≡ true → Redis.ready p ≡ true
unfolding Redis.ready
redis_answers p h = ground arith

rpc_answers : (p : RpConPool) → p.b_stop ≡ true → Rpc.ready p ≡ true
unfolding Rpc.ready
rpc_answers p h = ground arith
