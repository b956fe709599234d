-- ===== src/Tests/OnPools.antt =====
-- The waits of the pools, in small runs of up to three threads.
use quick_chat.Prelude.{some, ◌+◌, ℕ, false, List, [], ◌∷◌, ◌++◌, ◌≡◌, ◌⊎◌, refl, inl, arith}
use quick_chat.Common.RpcPool as Rpc
use quick_chat.Common.RpcPool.{RpConPool}
use quick_chat.Common.Redis.Pool as Redis
use quick_chat.Common.Waiting.{
  Thread, outside, asleep, woken, user, sleeper, total, one, not_called, returned, System, Step,
  checks, sleeps, returns, spurious, notifies, Reach, here, next,
}
use quick_chat.Common.Waiting.Conserve.{weight, Reach-weight}
use quick_chat.Common.Waiting.Notify.{Reach-progress}
use quick_chat.Common.Waiting.Close.{alone, close_missed}
use quick_chat.Common.Waiting.Closing.{redis_close_wakes}
use quick_chat.Common.Mysql.Pool.{Driver, SqlConnection}
use quick_chat.Common.Waiting.Pools.{redis_ops, redis_ops-Laws, mysql_ops, rpc_ops, rpc_ops-Laws}
use quick_chat.Tests.Toys.{redis_pool}

abbrev rpc_pool : List ℕ → RpConPool
rpc_pool stubs = record { b_stop = false; pool_size = 1; connections = stubs }

abbrev rpc_system : List ℕ → List (Thread ℕ) → System rpc_ops
rpc_system stubs threads = record {
  pool = rpc_pool stubs;
  locked = false;
  closer = not_called;
  threads = threads;
}

-- The first thread uses the one stub; the others find none and sleep.
abbrev at_start : System rpc_ops
at_start = rpc_system [] (user 7 ∷ outside ∷ outside ∷ [])

abbrev two_sleep : System rpc_ops
two_sleep = rpc_system [] (user 7 ∷ asleep ∷ asleep ∷ [])

both_sleep : Reach rpc_ops at_start two_sleep
unfolding Rpc.ready
both_sleep =
    next
      (next
        (next (next here (checks (user 7 ∷ []) (outside ∷ []) outside (inl refl) refl refl refl))
          (sleeps (user 7 ∷ []) (outside ∷ []) refl))
        (checks (user 7 ∷ asleep ∷ []) [] outside (inl refl) refl refl refl))
      (sleeps (user 7 ∷ asleep ∷ []) [] refl)

-- Then the first gives the stub back, which wakes one of them.
abbrev handed_over : System rpc_ops
handed_over = rpc_system (7 ∷ []) (outside ∷ asleep ∷ woken ∷ [])

stub_returned : Reach rpc_ops at_start handed_over
unfolding Rpc.return_connection
stub_returned = next both_sleep (
    returns [] (asleep ∷ asleep ∷ []) (outside ∷ asleep ∷ woken ∷ []) 7 refl refl refl
      (one (outside ∷ asleep ∷ []) [] refl))

Reach-weight_test :
    weight rpc_ops rpc_ops-Laws (λ stub. stub) handed_over
    ≡ weight rpc_ops rpc_ops-Laws (λ stub. stub) at_start
Reach-weight_test =
    Reach-weight rpc_ops rpc_ops-Laws (λ stub. stub) (λ p q r. absurd r) stub_returned refl

-- The driver gives a new connection for one that does not answer.
abbrev half_dead : Driver
half_dead = record { connect = λ i. some (i + 20); alive = λ c. false }

abbrev mysql_system : ℕ → List (Thread SqlConnection) → System mysql_ops
mysql_system time threads = record {
  pool = record {
    b_stop = false;
    pool_size = 2;
    pool = record { con = time; last_oper_time = time } ∷ [];
  };
  locked = false;
  closer = not_called;
  threads = threads;
}

abbrev taken : SqlConnection
taken = record { con = 7; last_oper_time = 9 }

Reach-progress_example :
    (xs ys : List (Thread ℕ)) × (handed_over.threads ≡ xs ++ woken ∷ ys)
    × Step rpc_ops handed_over (record handed_over {
      pool = (Rpc.get_connection handed_over.pool).1;
      threads = xs ++ user 7 ∷ ys;
    })
unfolding total
Reach-progress_example =
    Reach-progress rpc_ops rpc_ops-Laws refl refl refl stub_returned refl (omega arith) 7 [] refl

-- The system when the one thread has missed the notification.
abbrev missed : Thread ℕ → System redis_ops
missed = alone redis_ops redis_ops-Laws (Redis.set_stop (redis_pool [])) returned false

close_missed_test :
    Reach redis_ops
      (alone redis_ops redis_ops-Laws (redis_pool []) not_called false outside)
      (missed asleep)
    × (((missed woken).threads ≡ asleep ∷ []) ⊎ (missed woken ≡ missed woken))
close_missed_test =
    close_missed redis_ops redis_ops-Laws (redis_pool []) refl refl (spurious [] [] refl)

abbrev closing : System redis_ops
closing = record {
  pool = redis_pool [];
  locked = false;
  closer = not_called;
  threads = asleep ∷ outside ∷ [];
}

abbrev closed : System redis_ops
closed = record closing {
  pool = Redis.set_stop (redis_pool []);
  closer = returned;
  threads = woken ∷ outside ∷ [];
}

redis_close_wakes_example : total sleeper closed.threads ≡ 0
unfolding total
redis_close_wakes_example = redis_close_wakes closing refl refl (next here (notifies refl)) refl
