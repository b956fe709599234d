-- ===== src/Common/Redis/Pool.antt =====
-- servers/common/src/RedisMgr.cpp: the class `RedisConPool`. `joined`: `check_thread_` is joined.
-- A method holds the mutex from its first to its last line, so it is one step on the state.
use quick_chat.Prelude.{
  ℕ, zero, suc, ◌+◌, ltb, leb, ◌==◌, Bool, true, false, not, List, [], ◌∷◌, ◌++◌, Option, none,
  some, Bytes, if◌then◌else◌, length, Outcome, done, blocked, threw, crashed,
}
use quick_chat.Common.Redis.Server.{Connection, Reply, reply_error}

pub record RedisConPool : Type 0 where
  pub b_stop : Bool
  pub pool_size : ℕ
  pub pwd : Option Bytes
  pub connections : List Connection
  pub counter : ℕ
  pub joined : Bool

-- What the pool asks of hiredis. `connect`: `redisConnect` at the n-th attempt, none where it gives
-- null or a context with an error. `ping`: none where `redisCommand` throws, else the reply.
pub record Link : Type 0 where
  pub connect : ℕ → Option Connection
  pub auth : Connection → Bytes → Option Reply
  pub ping : Connection → Option (Option Reply)

-- `AUTH` on a new connection. A null reply is dereferenced.
unfoldable pub authenticate : Link → Option Bytes → Connection → Outcome Bool
authenticate k none c = done true
authenticate k (some pwd) c = elim (k.auth c pwd) [
  | none ↦ crashed
  | some reply ↦ done (not (reply.kind == reply_error))
]

-- The loop of the constructor, from attempt `i`, over the rounds that are left.
unfoldable pub connect_loop :
    Link → Option Bytes → ℕ → ℕ → List Connection → Outcome (List Connection)
connect_loop k pwd i zero cs = done cs
connect_loop k pwd i (suc rounds) cs = elim (k.connect i) [
  | none ↦ connect_loop k pwd (i + 1) rounds cs
  | some c ↦ elim (authenticate k pwd c) [
    | done true ↦ connect_loop k pwd (i + 1) rounds (cs ++ c ∷ [])
    | done false ↦ connect_loop k pwd (i + 1) rounds cs
    | blocked ↦ blocked
    | threw ↦ threw
    | crashed ↦ crashed
  ]
]

-- `RedisConPool::RedisConPool`
unfoldable pub make_pool : Link → ℕ → Option Bytes → Outcome RedisConPool
unfolding connect_loop authenticate
make_pool k size pwd = elim (connect_loop k pwd 0 size []) [
  | done cs ↦ done (record {
    b_stop = false;
    pool_size = size;
    pwd = pwd;
    connections = cs;
    counter = 0;
    joined = false;
  })
  | blocked ↦ blocked
  | threw ↦ threw
  | crashed ↦ crashed
]

-- `ClearConnections`
unfoldable clear_connections : RedisConPool → RedisConPool
clear_connections p = record p { connections = [] }

-- `front` and `pop`, once the wait is over; none is the null pointer.
unfoldable pub take_front :
    RedisConPool → List Connection → Outcome (Option Connection) × RedisConPool
take_front p [] = (blocked, p)
take_front p (c ∷ cs) = (done (some c), record p { connections = cs })

-- The predicate of the wait in `getConnection`.
unfoldable pub ready : RedisConPool → Bool
ready p = if p.b_stop then true else ltb 0 (length p.connections)

-- `getConnection`: the wait ends once the pool is stopped or holds a connection.
unfoldable pub get_connection : RedisConPool → Outcome (Option Connection) × RedisConPool
unfolding take_front
get_connection p = if p.b_stop then (done none, p) else take_front p p.connections

-- `returnConnection`
unfoldable pub return_connection : RedisConPool → Connection → RedisConPool
return_connection p c = if p.b_stop then p else record p { connections = p.connections ++ c ∷ [] }

-- `Close`, up to the join of the thread.
unfoldable pub set_stop : RedisConPool → RedisConPool
set_stop p = record p { b_stop = true }

-- `Close`. The thread ends at its next look at the flag; a join of it once it is joined throws.
unfoldable pub close : RedisConPool → Outcome {0} Unit × RedisConPool
unfolding set_stop
close p = if p.joined then (threw, set_stop p) else (done tt, record (set_stop p) { joined = true })

-- What the `catch` of `checkThread` puts back: the reconnected context, if that works.
unfoldable pub reconnect : Link → Option Bytes → ℕ → Outcome (List Connection)
unfolding authenticate
reconnect k pwd i = elim (k.connect i) [
  | none ↦ done []
  | some c ↦ elim (authenticate k pwd c) [
    | done true ↦ done (c ∷ [])
    | done false ↦ done []
    | blocked ↦ blocked
    | threw ↦ threw
    | crashed ↦ crashed
  ]
]

-- The loop of `checkThread`: `pool_size` rounds, each over the connection at the front.
unfoldable pub check_loop : Link → Option Bytes → ℕ → List Connection → Outcome (List Connection)
check_loop k pwd zero cs = done cs
check_loop k pwd (suc rounds) [] = crashed
check_loop k pwd (suc rounds) (c ∷ cs) = elim (k.ping c) [
  | some reply ↦ check_loop k pwd rounds (cs ++ c ∷ [])
  | none ↦ elim (reconnect k pwd rounds) [
    | done back ↦ check_loop k pwd rounds (cs ++ back)
    | blocked ↦ blocked
    | threw ↦ threw
    | crashed ↦ crashed
  ]
]

-- `checkThread`
unfoldable pub check_thread : Link → RedisConPool → Outcome RedisConPool
unfolding check_loop reconnect
check_thread k p =
    if p.b_stop then done p else elim (check_loop k p.pwd (length p.connections) p.connections) [
      | done cs ↦ done (record p { connections = cs })
      | blocked ↦ blocked
      | threw ↦ threw
      | crashed ↦ crashed
    ]

-- One round of the thread's loop, which sleeps a second between two rounds.
unfoldable pub tick : Link → RedisConPool → Outcome RedisConPool
unfolding check_thread
tick k p =
    if leb 60 (p.counter + 1)
    then elim (check_thread k p) [
      | done q ↦ done (record q { counter = 0 })
      | blocked ↦ blocked
      | threw ↦ threw
      | crashed ↦ crashed
    ]
    else done (record p { counter = p.counter + 1 })
