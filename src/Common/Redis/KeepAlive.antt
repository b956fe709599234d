-- ===== src/Common/Redis/KeepAlive.antt =====
-- The keep-alive thread of `RedisConPool`, and the connections that its constructor makes.
use quick_chat.Prelude.{
  ℕ, zero, suc, ◌+◌, ◌≤◌, ◌<◌, ◌%◌, false, List, [], ◌∷◌, ◌++◌, Option, some, ◌≡◌, refl, ◌⊎◌, inl,
  inr, Bytes, arith, append-nil, append_assoc, length, length-append, All, Bool-cases, Option-cases,
  Outcome, done, blocked, threw, crashed,
}
use quick_chat.Common.Redis.Server.{Connection, Reply}
use quick_chat.Common.Redis.Pool.{
  RedisConPool, Link, connect_loop, make_pool, reconnect, check_loop, check_thread, tick,
}

-- `PING` on the connection returns, with a reply or with null, and throws nothing. hiredis is a C
-- library: its calls never throw.
abbrev pub Returns : Link → Connection → Type 0
Returns k c = (reply : Option Reply) × (k.ping c ≡ some reply)

pub done_or_not {ℓ} :
    {A : Type ℓ} (r : Outcome A)
    → ((a : A) × (r ≡ done a)) ⊎ ((r ≡ blocked) ⊎ ((r ≡ threw) ⊎ (r ≡ crashed)))
done_or_not (done a) = inl (a, refl)
done_or_not blocked = inr (inl refl)
done_or_not threw = inr (inr (inl refl))
done_or_not crashed = inr (inr (inr refl))

check_loop-rotates :
    (k : Link) (pwd : Option Bytes) (xs ys : List Connection)
    → All (Returns k) xs
    → check_loop k pwd (length xs) (xs ++ ys) ≡ done (ys ++ xs)
unfolding check_loop
check_loop-rotates k pwd [] ys h = rw append-nil
check_loop-rotates k pwd (x ∷ xs) ys ((reply, e), h) = ground (
  arith,
  check_loop-rotates k pwd xs (ys ++ x ∷ []) h,
  append_assoc xs ys (x ∷ []),
  append_assoc ys (x ∷ []) xs,
)

-- Where no ping throws, a check leaves the whole pool as it was, the order of its queue included.
check_thread_keeps :
    (k : Link) (p : RedisConPool) → All (Returns k) p.connections → check_thread k p ≡ done p
unfolding check_thread
check_thread_keeps k p h =
    ground (arith, check_loop-rotates k p.pwd p.connections [] h, append-nil p.connections)

reconnect_bound :
    (k : Link) (pwd : Option Bytes) (i : ℕ) (cs : List Connection)
    → reconnect k pwd i ≡ done cs
    → length cs ≤ 1
unfolding reconnect
reconnect_bound k pwd i cs h = ground arith

check_loop_bound :
    (k : Link) (pwd : Option Bytes) (rounds : ℕ) (cs ds : List Connection)
    → check_loop k pwd rounds cs ≡ done ds
    → length ds ≤ length cs
unfolding check_loop
check_loop_bound k pwd zero cs ds h = ground arith
check_loop_bound k pwd (suc rounds) [] ds h = cc
check_loop_bound k pwd (suc rounds) (c ∷ cs) ds h = elim (Option-cases (k.ping c)) [
  | inl e ↦ elim (done_or_not (reconnect k pwd rounds)) [
    | inl (back, r) ↦ ground (
      arith,
      check_loop_bound k pwd rounds (cs ++ back) ds,
      length-append cs back,
      reconnect_bound k pwd rounds back r,
    )
    | inr r ↦ ground (arith, r)
  ]
  | inr (reply, e) ↦
      ground (arith, check_loop_bound k pwd rounds (cs ++ c ∷ []) ds, length-append cs (c ∷ []))
]

-- A check never makes the pool larger, whatever the connections and the reconnections do.
pub check_thread_bound :
    (k : Link) (p q : RedisConPool)
    → check_thread k p ≡ done q
    → length q.connections ≤ length p.connections
unfolding check_thread
check_thread_bound k p q h = elim (Bool-cases p.b_stop) [
  | inl e ↦ ground arith
  | inr e ↦ elim (done_or_not (check_loop k p.pwd (length p.connections) p.connections)) [
    | inl (cs, r) ↦ ground (arith, check_loop_bound k p.pwd _ p.connections cs r)
    | inr r ↦ ground arith
  ]
]

connect_loop_bound :
    (k : Link) (pwd : Option Bytes) (i rounds : ℕ) (cs ds : List Connection)
    → connect_loop k pwd i rounds cs ≡ done ds
    → length ds ≤ length cs + rounds
unfolding connect_loop
connect_loop_bound k pwd i zero cs ds h = ground arith
connect_loop_bound k pwd i (suc rounds) cs ds h = elim (Option-cases (k.connect i)) [
  | inl e ↦ ground (arith, connect_loop_bound k pwd (i + 1) rounds cs ds)
  | inr (c, e) ↦ ground (
    arith,
    connect_loop_bound k pwd (i + 1) rounds cs ds,
    connect_loop_bound k pwd (i + 1) rounds (cs ++ c ∷ []) ds,
    length-append cs (c ∷ []),
  )
]

-- The constructor makes at most `poolSize` connections, and the pool starts unstopped.
make_pool_bound :
    (k : Link) (size : ℕ) (pwd : Option Bytes) (p : RedisConPool)
    → make_pool k size pwd ≡ done p
    → (length p.connections ≤ size) × (p.b_stop ≡ false)
unfolding make_pool
make_pool_bound k size pwd p h = elim (done_or_not (connect_loop k pwd 0 size [])) [
  | inl (cs, r) ↦ ground (arith, connect_loop_bound k pwd 0 size [] cs r)
  | inr r ↦ ground arith
]

-- `n` rounds of the thread.
run_ticks : Link → ℕ → RedisConPool → Outcome RedisConPool
run_ticks k zero p = done p
run_ticks k (suc n) p = elim (tick k p) [
  | done q ↦ run_ticks k n q
  | blocked ↦ blocked
  | threw ↦ threw
  | crashed ↦ crashed
]

tick_lem :
    (k : Link) (p : RedisConPool)
    → p.counter < 60
    → All (Returns k) p.connections
    → tick k p ≡ done (record p { counter = (p.counter + 1) % 60 })
unfolding tick
tick_lem k p h r = ground (arith, check_thread_keeps k p r)

-- Over any number of rounds in which no ping throws, from a counter below 60, the thread ends with
-- the pool as it was, but for the counter, which counts the rounds modulo 60.
run_ticks_lem :
    (k : Link) (n : ℕ) (p : RedisConPool)
    → p.counter < 60
    → All (Returns k) p.connections
    → run_ticks k n p ≡ done (record p { counter = (p.counter + n) % 60 })
unfolding run_ticks
run_ticks_lem k zero p h r = ground arith
run_ticks_lem k (suc n) p h r = ground (
  arith,
  tick_lem k p h r,
  run_ticks_lem k n (record p { counter = (p.counter + 1) % 60 }) (omega arith) r,
)
