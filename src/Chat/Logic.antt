-- ===== src/Chat/Logic.antt =====
-- servers/ChatServer/src/LogicSystem.cpp: the queue of received messages and its worker thread.
-- `PostMsgToQue` and each round of `DealMsg` hold the mutex, so each is one step.
pub mod Fifo
pub mod Wakeup
pub mod Stop
use quick_chat.Prelude.Assoc.{lookup}
use quick_chat.Prelude.{
  ℕ, zero, suc, ◌+◌, ◌==◌, Bool, true, false, List, [], ◌∷◌, ◌++◌, Option, none, some, ◌≡◌, Bytes,
  ℤ, int_key, if◌then◌else◌, length,
}
use quick_chat.Chat.Session.{RecvMsg}

-- `LogicNode`: the session, by its id, and the received node.
pub record LogicNode : Type 0 where
  pub session : Bytes
  pub recvnode : RecvMsg

-- `FunCallBack` acts on what it can reach, here a state `W`.
abbrev pub FunCallBack : Type 0 → Type 0
FunCallBack W = Bytes → ℤ → Bytes → W → W

abbrev pub CallBacks : Type 0 → Type 0
CallBacks W = List (ℤ × FunCallBack W)

-- `RegisterCallBacks`: its body is empty.
pub register_callbacks : (W : Type 0) → CallBacks W
register_callbacks W = []

module _ {W : Type 0} (fun_callbacks : CallBacks W) where
  -- The lookup and the call for one message; a message with no callback is dropped.
  unfoldable pub dispatch : LogicNode → W → W
  dispatch node w = elim (lookup node.recvnode.msg_id fun_callbacks) [
    | none ↦ w
    | some callback ↦ callback node.session node.recvnode.msg_id node.recvnode.body w
  ]

  -- The loop over the rest of the queue, once `b_stop_` is set.
  unfoldable pub drain : List LogicNode → W → W
  unfolding dispatch
  drain [] w = w
  drain (node ∷ q) w = drain q (dispatch node w)

-- `notified`: whether `notify_one` has been called since the worker went to wait.
pub record LogicSystem (W : Type 0) : Type 0 where
  pub msg_que : List LogicNode
  pub b_stop : Bool
  pub notified : Bool
  pub world : W

-- What a round of `DealMsg` comes to: the worker waits, goes on or leaves the loop.
pub data Round (W : Type 0) : Type 0 where
  waits : Round W
  goes_on : LogicSystem W → Round W
  leaves : LogicSystem W → Round W

module _ {W : Type 0} where
  -- `PostMsgToQue`
  unfoldable pub post_msg_to_que : LogicNode → LogicSystem W → LogicSystem W
  post_msg_to_que msg s =
      let q = s.msg_que ++ msg ∷ [] in
      if length q == 1 then record s { msg_que = q; notified = true } else record s { msg_que = q }

  pub next_msg : CallBacks W → List LogicNode → LogicSystem W → Round W
  unfolding dispatch
  next_msg callbacks [] s = waits
  next_msg callbacks (node ∷ q) s =
      goes_on (record s { msg_que = q; world = dispatch callbacks node s.world })

  unfoldable pub deal_round : CallBacks W → LogicSystem W → Round W
  unfolding next_msg drain
  deal_round callbacks s =
      if s.b_stop
      then leaves (record s { msg_que = []; world = drain callbacks s.msg_que s.world })
      else next_msg callbacks s.msg_que s

  -- The rounds of `DealMsg` until it waits or leaves, on fuel.
  pub deal_msg : CallBacks W → ℕ → LogicSystem W → Option (LogicSystem W)
  unfolding deal_round
  deal_msg callbacks zero s = none
  deal_msg callbacks (suc fuel) s = elim (deal_round callbacks s) [
    | waits ↦ some s
    | goes_on t ↦ deal_msg callbacks fuel t
    | leaves t ↦ some t
  ]
