-- ===== src/Chat/Logic/Stop/Ends.antt =====
-- A stop that the worker of servers/ChatServer/src/LogicSystem.cpp hears.
use quick_chat.Prelude.{true, false, [], ◌≡◌, ◌≢◌, ◌⊎◌, inl, inr, refl, arith}
use quick_chat.Chat.Logic.{
  LogicNode, CallBacks, LogicSystem, post_msg_to_que, waits, goes_on, leaves, deal_round, next_msg,
  drain,
}
use quick_chat.Chat.Logic.Stop.{
  Worker, looping, checked, asleep, finished, not_called, flag_set, joining, wake, System, Step,
  post, notify, round, check, sleep, leave, spurious, sets, notifies, Reach, here, next,
}

module _ {W : Type 0} (callbacks : CallBacks W) where
  waits-running : (l : LogicSystem W) → deal_round callbacks l ≡ waits → l.b_stop ≡ false
  unfolding deal_round next_msg
  waits-running l h = ground arith

  leaves-drains :
      (l t : LogicSystem W)
      → deal_round callbacks l ≡ leaves t
      → (l.b_stop ≡ true)
        × (t.b_stop ≡ true)
        × (t.msg_que ≡ [])
        × (t.world ≡ drain callbacks l.msg_que l.world)
  unfolding deal_round next_msg
  leaves-drains l t h = ground arith

  goes_on-running :
      (l t : LogicSystem W)
      → deal_round callbacks l ≡ goes_on t
      → (l.b_stop ≡ false) × (t.b_stop ≡ false)
  unfolding deal_round next_msg
  goes_on-running l t h = ground arith

  post-stop : (m : LogicNode) (l : LogicSystem W) → (post_msg_to_que m l).b_stop ≡ l.b_stop
  unfolding post_msg_to_que
  post-stop m l = ground arith

  -- From the setting of the flag on, with a worker that is not between its look and its sleep.
  record Stopped (s : System callbacks) : Type 0 where
    flag : s.logic.b_stop ≡ true
    unowned : s.worker ≢ checked
    awake : s.stopper ≡ joining → s.worker ≢ asleep
    begun : s.stopper ≢ not_called

  wake-checked : (w : Worker) → wake w ≡ checked → w ≡ checked
  wake-checked looping h = absurd (cc)
  wake-checked asleep h = absurd (cc)
  wake-checked checked h = refl
  wake-checked finished h = absurd (cc)

  wake_awake : (w : Worker) → wake w ≢ asleep
  wake_awake looping h = cc
  wake_awake asleep h = cc
  wake_awake checked h = cc
  wake_awake finished h = cc

  Step-Stopped : {s t : System callbacks} → Step callbacks s t → Stopped s → Stopped t
  Step-Stopped {s} (post m l k e) v = record {
    flag = ground (arith, post-stop m (record s.logic { notified = false }), v.flag);
    unowned = v.unowned;
    awake = v.awake;
    begun = v.begun;
  }
  Step-Stopped {s} (notify n e) v = record {
    flag = v.flag;
    unowned = λ h. v.unowned (wake-checked s.worker h);
    awake = λ j. wake_awake s.worker;
    begun = v.begun;
  }
  Step-Stopped {s} (round l k e) v = absurd (ground (arith, goes_on-running s.logic l e, v.flag))
  Step-Stopped {s} (check k e) v = absurd (ground (arith, waits-running s.logic e, v.flag))
  Step-Stopped (sleep k) v = absurd (v.unowned k)
  Step-Stopped {s} (leave l k e) v = record {
    flag = (leaves-drains s.logic l e).1;
    unowned = λ h. cc;
    awake = λ j h. cc;
    begun = v.begun;
  }
  Step-Stopped (spurious k) v = record {
    flag = v.flag;
    unowned = λ h. cc;
    awake = λ j h. cc;
    begun = v.begun;
  }
  Step-Stopped (sets k) v = absurd (v.begun k)
  Step-Stopped {s} (notifies k) v = record {
    flag = v.flag;
    unowned = λ h. v.unowned (wake-checked s.worker h);
    awake = λ j. wake_awake s.worker;
    begun = λ h. cc;
  }

  Reach-Stopped : {s t : System callbacks} → Reach callbacks s t → Stopped s → Stopped t
  Reach-Stopped here v = v
  Reach-Stopped (next r st) v = Step-Stopped st (Reach-Stopped r v)

  -- A loop that the flag has reached ends in one round, which handles the queue.
  leaves_lem :
      (l : LogicSystem W)
      → l.b_stop ≡ true
      → deal_round callbacks l
        ≡ leaves (record l { msg_que = []; world = drain callbacks l.msg_que l.world })
  unfolding deal_round
  leaves_lem l h = ground arith

  worker_cases : (w : Worker) → w ≢ checked → w ≢ asleep → (w ≡ looping) ⊎ (w ≡ finished)
  worker_cases looping h k = inl refl
  worker_cases checked h k = absurd (h refl)
  worker_cases asleep h k = absurd (k refl)
  worker_cases finished h k = inr refl

  -- The destructor comes to its end where the worker is not between its look at the predicate and
  -- its sleep when the flag is set: from that step on, in every interleaving, once the destructor
  -- joins, the worker has left its loop or leaves it in its next step, after it has handled all
  -- the messages in the queue in their order.
  pub stop_ends :
      (s : System callbacks) {t : System callbacks}
      → s.worker ≢ checked
      → Reach callbacks
          (record s { logic = record s.logic { b_stop = true }; stopper = flag_set })
          t
      → t.stopper ≡ joining
      → (t.worker ≡ finished)
        ⊎ Step callbacks t (record t {
          logic = record t.logic {
            msg_que = [];
            world = drain callbacks t.logic.msg_que t.logic.world;
          };
          worker = finished;
        })
  stop_ends s {t} k r j =
      let v =
        Reach-Stopped r
          (record { flag = refl; unowned = k; awake = λ h. absurd (cc); begun = λ h. cc }) in
      elim (worker_cases t.worker v.unowned (v.awake j)) [
        | inl e ↦ inr (leave _ e (leaves_lem t.logic v.flag))
        | inr e ↦ inl e
      ]
