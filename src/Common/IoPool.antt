-- ===== src/Common/IoPool.antt =====
-- servers/common/src/AsioIOServicePool.cpp: which of its services the pool hands out, and how it
-- stops.
pub mod RoundRobin
pub mod Stopping
use quick_chat.Prelude.{
  ℕ, zero, suc, ◌+◌, ◌==◌, ltb, Bool, true, false, not, ◌||◌, List, [], ◌∷◌, Option, none, some,
  ◌≡◌, if◌then◌else◌, Outcome, done, blocked, threw, crashed, M, ◌>>◌, and_then,
}

-- An element of `ioServices_` with the elements of `works_` and `threads_` that were made for it.
-- `has_work`: the pointer to its `Work` is not null.
pub record IoService : Type 0 where
  pub stopped : Bool
  pub has_work : Bool
  pub joinable : Bool

-- `size`: the length of the three vectors.
pub record IoServicePool : Type 0 where
  pub size : ℕ
  pub next_io_service : ℕ
  pub services : List IoService

abbrev pub running : IoService
running = record { stopped = false; has_work = true; joinable = true }

-- The two loops of the constructor, one round of each.
make_services : ℕ → List IoService
make_services zero = []
make_services (suc n) = running ∷ make_services n

-- `AsioIOServicePool::AsioIOServicePool`
pub make_io_pool : ℕ → IoServicePool
unfolding make_services
make_io_pool size = record { size = size; next_io_service = 0; services = make_services size }

-- `GetIOService`: the index of the service, none where it is past the end of the vector.
pub get_io_service : IoServicePool → Option ℕ × IoServicePool
get_io_service p =
    let n = p.next_io_service + 1 in
    (
      (if ltb p.next_io_service p.size then some p.next_io_service else none),
      record p { next_io_service = if n == p.size then 0 else n },
    )

-- The loop of `Stop` over `works_`; a null pointer is dereferenced.
reset_works : M (List IoService) Unit
reset_works [] = (done tt, [])
reset_works (s ∷ services) =
    let rest = reset_works services in
    if s.has_work
    then (rest.0, record s { stopped = true; has_work = false } ∷ rest.1)
    else (crashed, s ∷ services)

-- The loop over `threads_`. `join` throws for a thread that is joined already. The thread ends once
-- its service is stopped or has no work, provided that the handler that it runs comes to its end: this
-- leaves out a handler that waits for ever, as one in `getConnection` of a pool can.
join_threads : M (List IoService) Unit
join_threads [] = (done tt, [])
join_threads (s ∷ services) =
    let rest = join_threads services in
    if not s.joinable
    then (threw, s ∷ services)
    else if s.stopped || not s.has_work
    then (rest.0, record s { joinable = false } ∷ rest.1)
    else (blocked, s ∷ services)

-- `Stop`
pub stop : M IoServicePool Unit
unfolding reset_works join_threads
stop p = let r = (reset_works >> join_threads) p.services in (r.0, record p { services = r.1 })

-- What an exception that leaves a destructor does to the process.
terminates : Outcome {0} Unit → Outcome {0} Unit
terminates (done u) = done u
terminates blocked = blocked
terminates threw = crashed
terminates crashed = crashed

-- `~AsioIOServicePool`
pub destroy : M IoServicePool Unit
unfolding stop terminates
destroy p = (terminates (stop p).0, (stop p).1)
