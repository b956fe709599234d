-- ===== src/Chat/Delivery.antt =====
-- From the bytes that a client sends to the callbacks of servers/ChatServer/src/LogicSystem.cpp,
-- through the reads of servers/ChatServer/src/CSession.cpp: each received message is wrapped with
-- its session into a `LogicNode` and given to `PostMsgToQue`.
use quick_chat.Prelude.Assoc.{lookup}
use quick_chat.Prelude.{
  suc, List, [], ◌∷◌, Option, none, some, ◌≡◌, refl, ap, ◌∙◌, All, length, Bytes, ℤ, int_key,
}
use quick_chat.Chat.Session.{RecvMsg, CSession, start, run_chunks}
use quick_chat.Chat.Session.Stream.{IsMessage, frames, arrivals, run_chunks-frames}
use quick_chat.Chat.Session.Chunks.{AllFit, flat}
use quick_chat.Chat.Logic.{LogicNode, CallBacks, LogicSystem, dispatch, drain, deal_msg}
use quick_chat.Chat.Logic.Fifo.{post_all, deal-post_all}

-- `LogicNode(shared_from_this(), recv_msg_node_)`
abbrev pub nodes : Bytes → List RecvMsg → List LogicNode
nodes session [] = []
nodes session (m ∷ ms) = record { session = session; recvnode = m } ∷ nodes session ms

module _ {W : Type 0} (callbacks : CallBacks W) (session : Bytes) where
  -- One call of the callback of its id for each message, in their order.
  abbrev pub called : Option (Bytes → ℤ → Bytes → W → W) → ℤ → Bytes → W → W
  called none msg_id msg w = w
  called (some callback) msg_id msg w = callback session msg_id msg w

  pub calls : List (ℤ × Bytes) → W → W
  calls [] w = w
  calls ((msg_id, msg) ∷ ms) w = calls ms (called (lookup msg_id callbacks) msg_id msg w)

  called_lem :
      (callback : Option (Bytes → ℤ → Bytes → W → W)) (msg_id : ℤ) (msg : Bytes) (w : W)
      → (elim callback [ none ↦ w | some f ↦ f session msg_id msg w ])
        ≡ called callback msg_id msg w
  called_lem none msg_id msg w = refl
  called_lem (some f) msg_id msg w = refl

  called-dispatch :
      (msg_id : ℤ) (msg : Bytes) (w : W)
      → dispatch callbacks
          (record { session = session; recvnode = record { msg_id = msg_id; body = msg } })
          w
        ≡ called (lookup msg_id callbacks) msg_id msg w
  unfolding dispatch
  called-dispatch msg_id msg w = called_lem (lookup msg_id callbacks) msg_id msg w

  drain-nodes :
      (ms : List (ℤ × Bytes)) (w : W) → drain callbacks (nodes session (arrivals ms)) w ≡ calls ms w
  unfolding drain calls arrivals
  drain-nodes [] w = refl
  drain-nodes ((msg_id, msg) ∷ ms) w =
      drain-nodes ms _ ∙ ap (calls ms) (called-dispatch msg_id msg w)

  -- What a client sends as frames, of messages of at most `MAX_LENGTH` bytes, is handled: however
  -- the socket cuts the bytes, once the messages of the session are posted to an empty queue, the
  -- worker calls the callback of each message's id once, with the session and the body, in the
  -- order of the client, and one round more than there are messages is fuel enough; no message is
  -- left in the queue.
  pub frames_handled :
      (ms : List (ℤ × Bytes)) (chunks : List Bytes) (s : LogicSystem W)
      → All IsMessage ms
      → flat chunks ≡ frames ms
      → AllFit chunks start
      → s.msg_que ≡ []
      → let posts : List LogicNode = nodes session (run_chunks chunks start).posted in
        (t : LogicSystem W) × (deal_msg callbacks (suc (length posts)) (post_all callbacks posts s)
          ≡ some t)
        × (t.world ≡ calls ms s.world)
        × (t.msg_que ≡ [])
  frames_handled ms chunks s h e fit quiet =
      let received : (run_chunks chunks start).posted ≡ arrivals ms =
        ap (λ (c : CSession). c.posted) (run_chunks-frames ms chunks h e fit) in
      let posts : List LogicNode = nodes session (run_chunks chunks start).posted in
      let (t, ends, world, empty) = deal-post_all callbacks posts s quiet in
      (
        t,
        ends,
        world
            ∙ ap (λ ps. drain callbacks (nodes session ps) s.world) received
            ∙ drain-nodes ms s.world,
        empty,
      )
