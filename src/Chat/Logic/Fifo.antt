-- ===== src/Chat/Logic/Fifo.antt =====
-- What becomes of the messages in the queue of servers/ChatServer/src/LogicSystem.cpp.
use quick_chat.Prelude.Assoc.{lookup}
use quick_chat.Prelude.{
  ℕ, zero, suc, ◌<◌, Bool, true, false, List, [], ◌∷◌, ◌++◌, some, ◌≡◌, refl, sym, ap, ◌∙◌, inl,
  inr, int_key, arith, append_assoc, append-nil, length, Bool-cases,
}
use quick_chat.Chat.Logic.{
  LogicNode, CallBacks, register_callbacks, dispatch, drain, LogicSystem, post_msg_to_que, next_msg,
  deal_round, deal_msg,
}

module _ {W : Type 0} (callbacks : CallBacks W) where
  abbrev with_que : List LogicNode → LogicSystem W → LogicSystem W
  with_que q s = record s { msg_que = q }

  -- All that the worker has to do, done.
  abbrev pub emptied : LogicSystem W → LogicSystem W
  emptied s = record s { msg_que = []; world = drain callbacks s.msg_que s.world }

  loop_running :
      (q : List LogicNode) (fuel : ℕ) (notified : Bool) (w : W)
      → length q < fuel
      → let s : LogicSystem W = record {
        msg_que = q;
        b_stop = false;
        notified = notified;
        world = w;
      } in
        deal_msg callbacks fuel s ≡ some (emptied s)
  unfolding deal_msg deal_round next_msg drain
  loop_running q zero notified w h = elim h [ ]
  loop_running [] (suc fuel) notified w h = refl
  loop_running (node ∷ q) (suc fuel) notified w h =
      loop_running q fuel notified (dispatch callbacks node w) (omega arith)

  loop_stopped :
      (fuel : ℕ) (s : LogicSystem W)
      → 0 < fuel
      → s.b_stop ≡ true
      → deal_msg callbacks fuel s ≡ some (emptied s)
  unfolding deal_msg deal_round
  loop_stopped zero s h e = elim h [ ]
  loop_stopped (suc fuel) s h e = ground arith

  -- The worker ends each of its runs, by a wait or by leaving the loop, within one round more than
  -- there are messages; by then it has handled all messages, oldest first. A stop changes nothing
  -- of that: what the loop would have handled is handled by the drain.
  deal_msg_lem :
      (fuel : ℕ) (s : LogicSystem W)
      → length s.msg_que < fuel
      → deal_msg callbacks fuel s ≡ some (emptied s)
  deal_msg_lem fuel s h = elim (Bool-cases s.b_stop) [
    | inl e ↦ loop_stopped fuel s (omega arith) e
    | inr e ↦
        let s' : LogicSystem W = record {
          msg_que = s.msg_que;
          b_stop = false;
          notified = s.notified;
          world = s.world;
        } in
        let same : s ≡ s' = λ i. record {
          msg_que = s.msg_que;
          b_stop = e i;
          notified = s.notified;
          world = s.world;
        } in
        ap (deal_msg callbacks fuel) same
        ∙ loop_running s.msg_que fuel s.notified s.world h
        ∙ ap (λ t. some (emptied t)) (sym same)
  ]

  pub post_all : List LogicNode → LogicSystem W → LogicSystem W
  post_all [] s = s
  post_all (m ∷ ms) s = post_all ms (post_msg_to_que m s)

  post_que :
      (m : LogicNode) (s : LogicSystem W) → (post_msg_to_que m s).msg_que ≡ s.msg_que ++ m ∷ []
  unfolding post_msg_to_que
  post_que m s = ground arith

  post_world : (m : LogicNode) (s : LogicSystem W) → (post_msg_to_que m s).world ≡ s.world
  unfolding post_msg_to_que
  post_world m s = ground arith

  post_all_que :
      (ms : List LogicNode) (s : LogicSystem W) → (post_all ms s).msg_que ≡ s.msg_que ++ ms
  unfolding post_all
  post_all_que [] s = sym (append-nil s.msg_que)
  post_all_que (m ∷ ms) s =
      post_all_que ms (post_msg_to_que m s)
      ∙ ap (λ q. q ++ ms) (post_que m s)
      ∙ append_assoc s.msg_que (m ∷ []) ms

  post_all_world : (ms : List LogicNode) (s : LogicSystem W) → (post_all ms s).world ≡ s.world
  unfolding post_all
  post_all_world [] s = refl
  post_all_world (m ∷ ms) s = post_all_world ms (post_msg_to_que m s) ∙ post_world m s

  -- Messages that are posted to an empty queue are handled in the order of the posts, each once, by
  -- the callback of its id; the queue is then empty, and one round more than there are messages is
  -- fuel enough.
  pub deal-post_all :
      (ms : List LogicNode) (s : LogicSystem W)
      → s.msg_que ≡ []
      → (t : LogicSystem W) × (deal_msg callbacks (suc (length ms)) (post_all ms s) ≡ some t)
        × (t.world ≡ drain callbacks ms s.world)
        × (t.msg_que ≡ [])
  deal-post_all ms s e =
      let que : (post_all ms s).msg_que ≡ ms = post_all_que ms s ∙ ap (λ q. q ++ ms) e in
      (
        emptied (post_all ms s),
        deal_msg_lem (suc (length ms)) (post_all ms s) (omega (arith, ap length que)),
        ap (λ q. drain callbacks q (post_all ms s).world) que
            ∙ ap (drain callbacks ms) (post_all_world ms s),
        refl,
      )

module _ {W : Type 0} where
  drain_none : (q : List LogicNode) (w : W) → drain (register_callbacks W) q w ≡ w
  unfolding drain dispatch register_callbacks lookup
  drain_none [] w = refl
  drain_none (node ∷ q) w = drain_none q w

  -- With the callbacks that the code registers, which are none, every message is dropped: on fuel
  -- for more rounds than there are messages, the worker empties the queue and changes nothing else.
  deal_msg_registered :
      (fuel : ℕ) (s : LogicSystem W)
      → length s.msg_que < fuel
      → deal_msg (register_callbacks W) fuel s ≡ some (record s { msg_que = [] })
  deal_msg_registered fuel s h =
      deal_msg_lem (register_callbacks W) fuel s h
      ∙ ap (λ (w : W). some (record s { msg_que = []; world = w })) (drain_none s.msg_que s.world)
