-- ===== src/Tests/OnStop.antt =====
-- The destructor of the chat server's logic system against its worker.
use quick_chat.Prelude.{Bool, true, false, List, [], ◌∷◌, ◌++◌, ◌≡◌, refl, ◌⊎◌, Bytes, codes, pos}
use quick_chat.Chat.Logic.{LogicNode, LogicSystem, CallBacks, drain}
use quick_chat.Chat.Logic.Stop as Stop
use quick_chat.Chat.Logic.Stop.Missed.{stuck, Rouses, stop_missed}
use quick_chat.Chat.Logic.Stop.Ends.{stop_ends}

abbrev trace : CallBacks (List Bytes)
trace = (pos 5, λ session msg_id body seen. seen ++ body ∷ []) ∷ []

abbrev node : LogicNode
node = record { session = codes "a"; recvnode = record { msg_id = pos 5; body = codes "m" } }

abbrev logic : Bool → List LogicNode → LogicSystem (List Bytes)
logic stop q = record { msg_que = q; b_stop = stop; notified = false; world = [] }

stop_missed_example :
    Stop.Reach trace
      (record {
        logic = logic false [];
        worker = Stop.looping;
        stopper = Stop.not_called;
        pending = 0;
      })
      (stuck trace (logic false []))
    × Rouses trace
        (stuck trace (logic false []))
        (record (stuck trace (logic false [])) { worker = Stop.looping })
stop_missed_example = stop_missed trace (logic false []) refl refl (Stop.spurious refl)

abbrev busy : Stop.System trace
busy = record {
  logic = logic false (node ∷ []);
  worker = Stop.looping;
  stopper = Stop.not_called;
  pending = 0;
}

abbrev joining : Stop.System trace
joining = record {
  logic = logic true (node ∷ []);
  worker = Stop.looping;
  stopper = Stop.joining;
  pending = 0;
}

stop_ends_example :
    (joining.worker ≡ Stop.finished)
    ⊎ Stop.Step trace joining (record joining {
      logic = record joining.logic {
        msg_que = [];
        world = drain trace joining.logic.msg_que joining.logic.world;
      };
      worker = Stop.finished;
    })
stop_ends_example = stop_ends trace busy (λ e. cc) (Stop.next Stop.here (Stop.notifies refl)) refl
