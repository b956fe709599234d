-- ===== src/Startup/Listen.antt =====
-- The accept loops: `CServer::Start` of servers/GateServer/src/CServer.cpp, and `StartAccept` with
-- `HandleAccept` of servers/ChatServer/src/CServer.cpp, over the pool of
-- servers/common/src/AsioIOServicePool.cpp. Boost.Asio calls a completion handler once for each
-- accept that is outstanding; `Event` is such a completion.
use quick_chat.Prelude.{
  ℕ, suc, ◌+◌, ◌%◌, ◌<◌, Bool, true, false, List, [], ◌∷◌, ◌++◌, Option, none, some, ◌≡◌, refl, sym,
  ap, ◌∙◌, arith, length, append-nil, append_assoc, Outcome, done, threw, crashed, M, ◌>>=◌,
}
use quick_chat.Common.IoPool.{IoServicePool, make_io_pool, get_io_service}
use quick_chat.Common.IoPool.RoundRobin.{after_calls, after_calls-suc, get_io_service_lem}

-- `outstanding`: the connections that a call of `async_accept` waits to fill, by the service that
-- each was made with. `started`: the connections whose `Start` has returned, in their order.
pub record Listener : Type 0 where
  pub pool : IoServicePool
  pub outstanding : List ℕ
  pub started : List ℕ

-- `refused`: the accept ends with an error. `opened`: with a connection; the flag is whether its
-- `Start` throws.
pub data Event : Type 0 where
  refused : Event
  opened : Bool → Event

-- A reference past the end of the vector of services is undefined.
accept_on : Option ℕ → M Listener Unit
accept_on none l = (crashed, l)
accept_on (some service) l = (done tt, record l { outstanding = l.outstanding ++ service ∷ [] })

-- `CServer::Start` of the gate and `CServer::StartAccept` of the chat server.
pub start_accept : M Listener Unit
unfolding accept_on
start_accept l = let r = get_io_service l.pool in accept_on r.0 (record l { pool = r.1 })

-- The handler of the gate for a connection. What `Start` throws is caught, and it accepts again.
gate_handler : Event → ℕ → M Listener Unit
unfolding start_accept
gate_handler refused con l = start_accept l
gate_handler (opened true) con l = start_accept l
gate_handler (opened false) con l = start_accept (record l { started = l.started ++ con ∷ [] })

-- `CServer::HandleAccept` of the chat server, without its map. What `Start` throws leaves it.
chat_handler : Event → ℕ → M Listener Unit
unfolding start_accept
chat_handler refused con l = start_accept l
chat_handler (opened true) con l = (threw, l)
chat_handler (opened false) con l = start_accept (record l { started = l.started ++ con ∷ [] })

-- A completion takes the accept that has waited longest; without one there is no completion.
complete : (ℕ → M Listener Unit) → List ℕ → M Listener Unit
complete handler [] l = (done tt, l)
complete handler (con ∷ cons) l = handler con (record l { outstanding = cons })

-- The loop of `io_context.run`; what a handler throws leaves it.
pub run : (Event → ℕ → M Listener Unit) → List Event → M Listener Unit
unfolding complete
run handler [] l = (done tt, l)
run handler (event ∷ events) l =
    (complete (handler event) l.outstanding >>= (λ _. run handler events)) l

fresh : ℕ → Listener
fresh size = record { pool = make_io_pool size; outstanding = []; started = [] }

pub gate_server : ℕ → List Event → Outcome {0} Unit × Listener
unfolding start_accept run gate_handler fresh
gate_server size events = (start_accept >>= (λ _. run gate_handler events)) (fresh size)

pub chat_server : ℕ → List Event → Outcome {0} Unit × Listener
unfolding start_accept run chat_handler fresh
chat_server size events = (start_accept >>= (λ _. run chat_handler events)) (fresh size)

-- The connections that start, from the n-th one on: the n-th stands on service number n modulo the
-- number of services.
unfoldable pub served : ℕ → ℕ → List Event → List ℕ
served size n [] = []
served size n (refused ∷ events) = served size (suc n) events
served size n (opened true ∷ events) = served size (suc n) events
served size n (opened false ∷ events) = n % size ∷ served size (suc n) events

-- The listener that waits for its n-th connection.
unfoldable pub waits_for : ℕ → ℕ → List ℕ → Listener
waits_for size n started = record {
  pool = after_calls (suc n) (make_io_pool size);
  outstanding = n % size ∷ [];
  started = started;
}

-- Accepting once more, after n calls.
start_accept_lem :
    (size n : ℕ) (started : List ℕ)
    → 0 < size
    → start_accept
        (record { pool = after_calls n (make_io_pool size); outstanding = []; started = started })
      ≡ (done tt, waits_for size n started)
unfolding start_accept accept_on waits_for
start_accept_lem size n started h =
    rw (get_io_service_lem size n h) (rw (after_calls-suc n (make_io_pool size)) refl)

waits_at :
    (size : ℕ) {n m : ℕ} {xs ys : List ℕ}
    → n ≡ m
    → xs ≡ ys
    → waits_for size n xs ≡ waits_for size m ys
waits_at size e k = λ i. waits_for size (e i) (k i)

listening : Listener → Outcome {0} Unit × Listener
listening l = (done tt, l)

gate_run_lem :
    (size n : ℕ) (events : List Event) (started : List ℕ)
    → 0 < size
    → run gate_handler events (waits_for size n started)
      ≡ (done tt, waits_for size (n + length events) (started ++ served size n events))
unfolding run complete gate_handler listening waits_for served
gate_run_lem size n [] started h =
    ap listening (waits_at size (omega arith) (sym (append-nil started)))
gate_run_lem size n (refused ∷ events) started h =
    rw (start_accept_lem size (suc n) started h)
      (gate_run_lem size (suc n) events started h ∙ ap listening (waits_at size (omega arith) refl))
gate_run_lem size n (opened true ∷ events) started h =
    rw (start_accept_lem size (suc n) started h)
      (gate_run_lem size (suc n) events started h ∙ ap listening (waits_at size (omega arith) refl))
gate_run_lem size n (opened false ∷ events) started h =
    rw (start_accept_lem size (suc n) (started ++ n % size ∷ []) h) (
      gate_run_lem size (suc n) events (started ++ n % size ∷ []) h
      ∙ ap listening (
          waits_at size (omega arith)
            (append_assoc started (n % size ∷ []) (served size (suc n) events))))

-- However its accepts end, with an error, with a connection whose start throws or with one that
-- starts, the gate goes on: after any completions exactly one accept is outstanding, its service
-- and those of the started connections are the next in turn, and nothing leaves the loop.
pub gate_server_lem :
    (size : ℕ) (events : List Event)
    → 0 < size
    → gate_server size events ≡ (done tt, waits_for size (length events) (served size 0 events))
unfolding gate_server fresh after_calls listening
gate_server_lem size events h =
    rw (start_accept_lem size 0 [] h)
      (gate_run_lem size 0 events [] h ∙ ap listening (waits_at size (omega arith) refl))

-- No connection's start throws.
unfoldable pub NoneThrows : List Event → Type 0
NoneThrows [] = Unit
NoneThrows (refused ∷ events) = NoneThrows events
NoneThrows (opened true ∷ events) = ⊥
NoneThrows (opened false ∷ events) = NoneThrows events

chat_run_lem :
    (size n : ℕ) (events rest : List Event) (started : List ℕ)
    → 0 < size
    → NoneThrows events
    → run chat_handler (events ++ rest) (waits_for size n started)
      ≡ run chat_handler rest (waits_for size (n + length events) (started ++ served size n events))
unfolding run complete chat_handler waits_for served NoneThrows
chat_run_lem size n [] rest started h k =
    ap (run chat_handler rest) (waits_at size (omega arith) (sym (append-nil started)))
chat_run_lem size n (refused ∷ events) rest started h k =
    rw (start_accept_lem size (suc n) started h) (
      chat_run_lem size (suc n) events rest started h k
      ∙ ap (run chat_handler rest) (waits_at size (omega arith) refl))
chat_run_lem size n (opened true ∷ events) rest started h k = absurd k
chat_run_lem size n (opened false ∷ events) rest started h k =
    rw (start_accept_lem size (suc n) (started ++ n % size ∷ []) h) (
      chat_run_lem size (suc n) events rest (started ++ n % size ∷ []) h k
      ∙ ap (run chat_handler rest) (
          waits_at size (omega arith)
            (append_assoc started (n % size ∷ []) (served size (suc n) events))))

-- The end of the chat server's loop: none is outstanding.
unfoldable pub lost : Listener → Outcome {0} Unit × Listener
lost l = (threw, record l { outstanding = [] })

-- The chat server accepts the same way as long as no start throws; the first one that does ends
-- its loop, with no accept outstanding, so that no later completion is handled.
pub chat_server_ends :
    (size : ℕ) (before after : List Event)
    → 0 < size
    → NoneThrows before
    → (chat_server size before ≡ (done tt, waits_for size (length before) (served size 0 before)))
      × (chat_server size (before ++ opened true ∷ after)
          ≡ lost (waits_for size (length before) (served size 0 before)))
unfolding chat_server fresh after_calls run complete chat_handler waits_for listening lost
chat_server_ends size before after h k = (
  rw (start_accept_lem size 0 [] h) (
      ap (λ es. run chat_handler es (waits_for size 0 [])) (sym (append-nil before))
      ∙ chat_run_lem size 0 before [] [] h k
      ∙ ap listening (waits_at size (omega arith) refl)),
  rw (start_accept_lem size 0 [] h) (
      chat_run_lem size 0 before (opened true ∷ after) [] h k
      ∙ ap lost (waits_at size {n = 0 + length before} {m = length before} (omega arith) refl)),
)
