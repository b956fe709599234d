-- ===== src/Chat/Sender.antt =====
-- servers/ChatServer/src/CSession.cpp: the write side of a session, `Send` and `HandleWrite`.
-- Each of them holds `send_lock_`, so it is one step.
pub mod Fifo
use quick_chat.Prelude.{
  ℕ, zero, suc, ◌+◌, ◌%◌, ltb, Bool, true, false, List, [], ◌∷◌, ◌++◌, Option, none, some, ◌≡◌,
  Bytes, ℤ, pos, if◌then◌else◌, length, Outcome, done, blocked, threw, crashed,
}
use quick_chat.Chat.Frame.{to_short, SendNode, make_send_node}

abbrev pub max_sendque : ℕ
max_sendque = 1000

-- `issued`: the nodes handed to `async_write`, in order. `in_flight`: the last one is not yet done.
-- `closed`: `Close` and `ClearSession` have been called after a failed write.
pub record Sender : Type 0 where
  pub send_que : List SendNode
  pub issued : List SendNode
  pub in_flight : Bool
  pub closed : Bool

unfoldable pub new_sender : Sender
new_sender = record { send_que = []; issued = []; in_flight = false; closed = false }

-- `async_write` of the node at the front.
pub write_front : List SendNode → Sender → Sender
write_front [] s = record s { send_que = [] }
write_front (m ∷ q) s = record s { send_que = m ∷ q; issued = s.issued ++ m ∷ []; in_flight = true }

-- `Send`, once the node is made: it is queued, and written if the queue was empty.
pub push_node : SendNode → Sender → Sender
unfolding write_front
push_node m s =
    if ltb 0 (length s.send_que)
    then record s { send_que = s.send_que ++ m ∷ [] }
    else write_front (s.send_que ++ m ∷ []) s

-- `Send(char*, short, short)`
unfoldable pub send : Bytes → ℤ → ℤ → Sender → Outcome Sender
unfolding push_node
send msg max_length msg_id s =
    if ltb max_sendque (length s.send_que)
    then done s
    else elim (make_send_node msg max_length msg_id) [
      | done m ↦ done (push_node m s)
      | blocked ↦ blocked
      | threw ↦ threw
      | crashed ↦ crashed
    ]

-- `Send(std::string, short)`: the length goes into a `short`.
pub send_string : Bytes → ℤ → Sender → Outcome Sender
unfolding send to_short
send_string msg msg_id s = send msg (to_short (length msg)) msg_id s

pub pop_front : List SendNode → List SendNode
pop_front [] = []
pop_front (m ∷ q) = q

-- `HandleWrite`; the flag is the error.
pub handle_write : Bool → Sender → Sender
unfolding write_front pop_front
handle_write true s = record s { in_flight = false; closed = true }
handle_write false s = write_front (pop_front s.send_que) (record s { in_flight = false })
