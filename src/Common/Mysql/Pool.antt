-- ===== src/Common/Mysql/Pool.antt =====
-- servers/common/src/MysqlDao.cpp: the classes `SqlConnection` and `MySqlPool`.
use quick_chat.Prelude.{
  ℕ, zero, suc, ◌+◌, ltb, Bool, true, false, List, [], ◌∷◌, ◌++◌, Option, none, some, if◌then◌else◌,
  length, Outcome, done, blocked, threw, crashed,
}

-- `con_` stands for the driver's connection. Times are seconds since the epoch.
pub record SqlConnection : Type 0 where
  pub con : ℕ
  pub last_oper_time : ℕ

pub record MySqlPool : Type 0 where
  pub b_stop : Bool
  pub pool_size : ℕ
  pub pool : List SqlConnection

-- What the pool asks of the driver. `connect`: `driver->connect` and `setSchema` at the n-th
-- attempt, none where one of them throws. `alive`: whether `SELECT 1` goes through.
pub record Driver : Type 0 where
  pub connect : ℕ → Option ℕ
  pub alive : ℕ → Bool

-- The loop of the constructor: an exception ends it, and what is in the queue stays there.
unfoldable pub connect_loop : Driver → ℕ → ℕ → ℕ → List SqlConnection → List SqlConnection
connect_loop d now i zero cs = cs
connect_loop d now i (suc rounds) cs = elim (d.connect i) [
  | none ↦ cs
  | some c ↦ connect_loop d now (i + 1) rounds (cs ++ record { con = c; last_oper_time = now } ∷ [])
]

-- `MySqlPool::MySqlPool`
unfoldable pub make_pool : Driver → ℕ → ℕ → MySqlPool
unfolding connect_loop
make_pool d now size = record {
  b_stop = false;
  pool_size = size;
  pool = connect_loop d now 0 size [];
}

-- `front` and `pop` at the end of the wait.
unfoldable pub take_front :
    MySqlPool → List SqlConnection → Outcome (Option SqlConnection) × MySqlPool
take_front p [] = (blocked, p)
take_front p (c ∷ cs) = if p.b_stop then (done none, p) else (done (some c), record p { pool = cs })

-- The predicate of the wait in `getConnection`.
unfoldable pub ready : MySqlPool → Bool
ready p = if p.b_stop then false else ltb 0 (length p.pool)

-- `getConnection`: the predicate of the wait is false on a stopped pool, whatever it holds.
unfoldable pub get_connection : MySqlPool → Outcome (Option SqlConnection) × MySqlPool
unfolding take_front
get_connection p = if p.b_stop then (blocked, p) else take_front p p.pool

-- `returnConnection`
unfoldable pub return_connection : MySqlPool → SqlConnection → MySqlPool
return_connection p c = if p.b_stop then p else record p { pool = p.pool ++ c ∷ [] }

-- `Close`
unfoldable pub close : MySqlPool → MySqlPool
close p = record p { b_stop = true }

-- One round of `checkConnection`: the connection that the `Defer` puts back. An exception of the
-- reconnection leaves the handler, after the `Defer` has put the old connection back.
unfoldable pub refresh : Driver → ℕ → ℕ → SqlConnection → Outcome SqlConnection
refresh d now i c =
    if ltb now (c.last_oper_time + 5)
    then done c
    else if d.alive c.con
    then done (record c { last_oper_time = now })
    else elim (d.connect i) [
      | none ↦ threw
      | some fresh ↦ done (record { con = fresh; last_oper_time = now })
    ]

-- The loop of `checkConnection`, with the queue as it stands when the loop ends or throws.
unfoldable pub check_loop :
    Driver → ℕ → ℕ → List SqlConnection → Outcome (Unit {0}) × List SqlConnection
check_loop d now zero cs = (done tt, cs)
check_loop d now (suc rounds) [] = (crashed, [])
check_loop d now (suc rounds) (c ∷ cs) = elim (refresh d now rounds c) [
  | done c' ↦ check_loop d now rounds (cs ++ c' ∷ [])
  | blocked ↦ (blocked, cs ++ c ∷ [])
  | threw ↦ (threw, cs ++ c ∷ [])
  | crashed ↦ (crashed, cs ++ c ∷ [])
]

-- `checkConnection`
unfoldable pub check_connection : Driver → ℕ → MySqlPool → Outcome (Unit {0}) × MySqlPool
unfolding check_loop refresh
check_connection d now p =
    let r = check_loop d now (length p.pool) p.pool in (r.0, record p { pool = r.1 })

-- `~MySqlPool`
unfoldable pub destroy : MySqlPool → MySqlPool
destroy p = record p { pool = [] }
