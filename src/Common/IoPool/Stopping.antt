-- ===== src/Common/IoPool/Stopping.antt =====
-- The end of the pool of servers/common/src/AsioIOServicePool.cpp.
use quick_chat.Prelude.{
  ℕ, zero, suc, ◌<◌, true, false, List, [], ◌∷◌, ◌≡◌, refl, ap, arith, done, crashed,
}
use quick_chat.Common.IoPool.{
  IoService, IoServicePool, make_services, make_io_pool, get_io_service, reset_works, join_threads,
  stop, destroy, terminates,
}
use quick_chat.Common.IoPool.RoundRobin.{after_calls}

abbrev ended : IoService
ended = record { stopped = true; has_work = false; joinable = false }

pub all_ended : ℕ → List IoService
all_ended zero = []
all_ended (suc n) = ended ∷ all_ended n

-- After the first loop of `Stop`.
drained : ℕ → List IoService
drained zero = []
drained (suc n) = record { stopped = true; has_work = false; joinable = true } ∷ drained n

reset_works-make_services : (n : ℕ) → reset_works (make_services n) ≡ (done tt, drained n)
unfolding reset_works make_services drained
reset_works-make_services zero = refl
reset_works-make_services (suc n) = rw (reset_works-make_services n) refl

join_threads-drained : (n : ℕ) → join_threads (drained n) ≡ (done tt, all_ended n)
unfolding join_threads drained all_ended
join_threads-drained zero = refl
join_threads-drained (suc n) = rw (join_threads-drained n) refl

services-after_calls : (n : ℕ) (p : IoServicePool) → (after_calls n p).services ≡ p.services
unfolding after_calls get_io_service
services-after_calls zero p = refl
services-after_calls (suc n) p = services-after_calls n (get_io_service p).1

-- `Stop` on a pool that was never stopped returns with every thread joined.
pub stop-after_calls :
    (size n : ℕ)
    → stop (after_calls n (make_io_pool size))
      ≡ (done tt, record (after_calls n (make_io_pool size)) { services = all_ended size })
unfolding stop make_io_pool
stop-after_calls size n =
    rw (services-after_calls n (make_io_pool size))
      (rw (reset_works-make_services size) (rw (join_threads-drained size) refl))

-- A stopped pool of one or more services does not survive a second `Stop`.
stop_again :
    (size : ℕ) (p : IoServicePool) → 0 < size → p.services ≡ all_ended size → (stop p).0 ≡ crashed
unfolding stop reset_works all_ended
stop_again zero p h e = absurd (omega arith)
stop_again (suc n) p h e = rw e refl

pub destroy-after_calls : (size n : ℕ) → (destroy (after_calls n (make_io_pool size))).0 ≡ done tt
unfolding destroy terminates
destroy-after_calls size n = ap (λ r. terminates r.0) (stop-after_calls size n)

pub destroy_again :
    (size : ℕ) (p : IoServicePool)
    → 0 < size
    → p.services ≡ all_ended size
    → (destroy p).0 ≡ crashed
unfolding destroy terminates
destroy_again size p h e = ap terminates (stop_again size p h e)
