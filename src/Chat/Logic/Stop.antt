-- ===== src/Chat/Logic/Stop.antt =====
-- The destructor of servers/ChatServer/src/LogicSystem.cpp, which sets `b_stop_` and notifies
-- without the mutex, against the worker. Here the wait of the worker is two steps: it looks at the
-- predicate, with the mutex, and then it sleeps and lets go of the mutex at once.
pub mod Missed
pub mod Ends
use quick_chat.Prelude.{ℕ, suc, ◌+◌, true, false, ◌≡◌, ◌≢◌, if◌then◌else◌}
use quick_chat.Chat.Logic.{
  LogicNode, CallBacks, LogicSystem, post_msg_to_que, waits, goes_on, leaves, deal_round,
}

-- `checked`: it holds the mutex, and has found nothing to do.
pub data Worker : Type 0 where
  looping checked asleep finished : Worker

-- How far the destructor is; after its notification it joins the worker.
pub data Stopper : Type 0 where
  not_called flag_set joining : Stopper

abbrev pub wake : Worker → Worker
wake asleep = looping
wake looping = looping
wake checked = checked
wake finished = finished

module _ {W : Type 0} (callbacks : CallBacks W) where
  pub record System : Type 0 where
    pub logic : LogicSystem W
    pub worker : Worker
    pub stopper : Stopper
    -- the posts that have let go of the mutex and are about to notify
    pub pending : ℕ

  pub data Step (s : System) : System → Type 0 where
    -- `PostMsgToQue`: it waits for the mutex, and lets go of it before it notifies.
    post :
        (m : LogicNode) (l : LogicSystem W)
        → s.worker ≢ checked
        → post_msg_to_que m (record s.logic { notified = false }) ≡ l
        → Step s (record s { logic = l; pending = if l.notified then s.pending + 1 else s.pending })
    notify : (n : ℕ) → s.pending ≡ suc n → Step s (record s { worker = wake s.worker; pending = n })
    round :
        (l : LogicSystem W)
        → s.worker ≡ looping
        → deal_round callbacks s.logic ≡ goes_on l
        → Step s (record s { logic = l })
    check :
        s.worker ≡ looping
        → deal_round callbacks s.logic ≡ waits
        → Step s (record s { worker = checked })
    sleep : s.worker ≡ checked → Step s (record s { worker = asleep })
    leave :
        (l : LogicSystem W)
        → s.worker ≡ looping
        → deal_round callbacks s.logic ≡ leaves l
        → Step s (record s { logic = l; worker = finished })
    spurious : s.worker ≡ asleep → Step s (record s { worker = looping })
    -- The two halves of the destructor before the join.
    sets :
        s.stopper ≡ not_called
        → Step s (record s { logic = record s.logic { b_stop = true }; stopper = flag_set })
    notifies :
        s.stopper ≡ flag_set → Step s (record s { worker = wake s.worker; stopper = joining })

  pub data Reach (s : System) : System → Type 0 where
    here : Reach s s
    next : {t u : System} → Reach s t → Step t u → Reach s u
