-- ===== src/Common/Waiting/Closing.antt =====
-- What `Close` does to the waiting threads of the pools.
use quick_chat.Prelude.{◌≡◌}
use quick_chat.Common.Waiting.{System, Reach, sleeper, total, not_called, flag_set, returned}
use quick_chat.Common.Waiting.Counts.{checker}
use quick_chat.Common.Waiting.Close.{close_wakes}
use quick_chat.Common.Waiting.Pools.{redis_ops, redis_ops-Laws, redis_answers}
use quick_chat.Common.Redis.Pool.{set_stop}

-- `RedisConPool::Close` reaches every thread that is not between its look at the predicate and its
-- sleep when the flag is set: from that step on, in whatever order the threads run, once `Close`
-- has returned no thread sleeps, and none ever will.
pub redis_close_wakes :
    (s : System redis_ops) {t : System redis_ops}
    → total checker s.threads ≡ 0
    → s.closer ≡ not_called
    → Reach redis_ops (record s { pool = set_stop s.pool; closer = flag_set }) t
    → t.closer ≡ returned
    → total sleeper t.threads ≡ 0
redis_close_wakes s owner e r f = close_wakes redis_ops redis_ops-Laws redis_answers owner e r f
