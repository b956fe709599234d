-- ===== src/Chat/Logic/Stop/Missed.antt =====
-- A stop that the worker of servers/ChatServer/src/LogicSystem.cpp does not hear.
use quick_chat.Prelude.{true, false, [], ◌≡◌, ◌⊎◌, inl, inr, refl, sym, arith}
use quick_chat.Chat.Logic.{
  LogicNode, CallBacks, LogicSystem, post_msg_to_que, waits, deal_round, next_msg,
}
use quick_chat.Chat.Logic.Stop.{
  looping, asleep, not_called, joining, System, Step, post, notify, round, check, sleep, leave,
  spurious, sets, notifies, Reach, here, next,
}

module _ {W : Type 0} (callbacks : CallBacks W) where
  waits_lem :
      (l : LogicSystem W) → l.b_stop ≡ false → l.msg_que ≡ [] → deal_round callbacks l ≡ waits
  unfolding deal_round next_msg
  waits_lem l h e = ground arith

  -- What can still happen to a worker that sleeps.
  abbrev pub Rouses : System callbacks → System callbacks → Type 0
  Rouses s t =
      ((m : LogicNode) × (t.logic ≡ post_msg_to_que m (record s.logic { notified = false })))
      ⊎ (t ≡ record s { worker = looping })

  only_roused :
      {s t : System callbacks}
      → Step callbacks s t
      → s.worker ≡ asleep
      → s.stopper ≡ joining
      → s.pending ≡ 0
      → Rouses s t
  only_roused (post m l k e) a f p = inl (m, sym e)
  only_roused (notify n e) a f p = absurd (omega arith)
  only_roused (round l k e) a f p = absurd (ground arith)
  only_roused (check k e) a f p = absurd (ground arith)
  only_roused (sleep k) a f p = absurd (ground arith)
  only_roused (leave l k e) a f p = absurd (ground arith)
  only_roused (spurious k) a f p = inr refl
  only_roused (sets k) a f p = absurd (ground arith)
  only_roused (notifies k) a f p = absurd (ground arith)

  -- The worker sleeps while the destructor waits for its end.
  abbrev pub stuck : LogicSystem W → System callbacks
  stuck l = record {
    logic = record l { b_stop = true };
    worker = asleep;
    stopper = joining;
    pending = 0;
  }

  -- The stop can be missed: with an empty queue the worker can look at the predicate before the
  -- flag is set and go to sleep after the notification. The destructor then joins a worker that
  -- sleeps, and nothing but a further post or the end of the wait with no notification can happen.
  pub stop_missed :
      (l : LogicSystem W) {t : System callbacks}
      → l.b_stop ≡ false
      → l.msg_que ≡ []
      → Step callbacks (stuck l) t
      → Reach callbacks
          (record { logic = l; worker = looping; stopper = not_called; pending = 0 })
          (stuck l)
        × Rouses (stuck l) t
  stop_missed l h e st = (
    next (next (next (next here (check refl (waits_lem l h e))) (sets refl)) (notifies refl))
        (sleep refl),
    only_roused st refl refl refl,
  )
