-- ===== src/Common/Waiting/Kept.antt =====
-- What a round of the keep-alive threads in servers/common/src/RedisMgr.cpp and MysqlDao.cpp leaves
-- of the flag and of the number of the idle connections.
use quick_chat.Prelude.{
  List, [], ◌∷◌, ℕ, leb, ◌+◌, ◌≤◌, Bool-cases, ◌≡◌, refl, sym, ap, inl, inr, arith, length, done,
}
use quick_chat.Common.Waiting.{total}
use quick_chat.Common.Redis.Pool.{RedisConPool, Link, check_thread, tick}
use quick_chat.Common.Redis.KeepAlive.{done_or_not, check_thread_bound}
use quick_chat.Common.Mysql.Pool.{MySqlPool, Driver, check_connection}
use quick_chat.Common.Mysql.Refresh.{check_connection-length}

-- A round of the thread of `RedisConPool` does not touch the flag.
pub tick_stopped : (k : Link) (p q : RedisConPool) → tick k p ≡ done q → q.b_stop ≡ p.b_stop
unfolding tick check_thread
tick_stopped k p q h = ground (arith, h)

-- It adds no connection.
pub tick_fewer :
    (k : Link) (p q : RedisConPool)
    → tick k p ≡ done q
    → length q.connections ≤ length p.connections
unfolding tick
tick_fewer k p q h = elim (Bool-cases (leb 60 (p.counter + 1))) [
  | inl e ↦ elim (done_or_not (check_thread k p)) [
    | inl (r, f) ↦ ground (arith, check_thread_bound k p r f)
    | inr f ↦ ground (arith, f)
  ]
  | inr e ↦ ground (arith, e, h)
]

-- A check of `MySqlPool` does not touch the flag.
pub check_stopped :
    (d : Driver) (now : ℕ) (p q : MySqlPool)
    → check_connection d now p ≡ (done tt, q)
    → q.b_stop ≡ p.b_stop
unfolding check_connection
check_stopped d now p q h = sym (ap (λ r. r.1.b_stop) h)

-- It adds no connection.
pub check_fewer :
    (d : Driver) (now : ℕ) (p q : MySqlPool)
    → check_connection d now p ≡ (done tt, q)
    → length q.pool ≤ length p.pool
check_fewer d now p q h =
    omega (arith, check_connection-length d now p, ap (λ r. length r.1.pool) h)

total_ones {ℓ} : {T : Type ℓ} (ts : List T) → total (λ t. 1) ts ≡ length ts
unfolding total
total_ones [] = refl
total_ones (t ∷ ts) = omega (arith, total_ones ts)

-- Nor does it lose one.
pub check_keeps :
    (d : Driver) (now : ℕ) (p q : MySqlPool)
    → check_connection d now p ≡ (done tt, q)
    → total (λ c. 1) q.pool ≡ total (λ c. 1) p.pool
check_keeps d now p q h = omega (
  arith,
  total_ones p.pool,
  total_ones q.pool,
  check_connection-length d now p,
  ap (λ r. length r.1.pool) h,
)
