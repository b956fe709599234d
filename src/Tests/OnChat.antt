-- ===== src/Tests/OnChat.antt =====
-- The modules of Chat at small inputs.
use quick_chat.Prelude.Assoc.{lookup}
use quick_chat.Prelude.{
  ℕ, suc, true, false, List, [], ◌∷◌, ◌++◌, none, some, ◌≡◌, ◌⊎◌, refl, ap, arith, Bytes, bytes_key,
  bytes_eq, codes, ℤ, pos, int_key, length, done,
}
use quick_chat.Chat.Frame.{be16, make_send_node}
use quick_chat.Chat.Session.{
  CSession, idle, start, on_chunk, run_chunks, Event, received, read_short,
}
use quick_chat.Chat.Session.Chunks.{run_chunks_regroup}
use quick_chat.Chat.Session.Stream.{frames, arrivals, waiting, run_chunks-frames}
use quick_chat.Chat.Session.Bounds.{
  run_events, PhaseFits, Overrun, run_events_bounds, negative_length_stalls,
}
use quick_chat.Chat.Sender.{Sender, new_sender}
use quick_chat.Chat.Sender.Fifo
use quick_chat.Chat.Server.{Server, get_session, clear_session}
use quick_chat.Chat.Server.Clear
use quick_chat.Chat.Logic.{
  LogicNode, LogicSystem, CallBacks, drain, deal_msg, deal_round, post_msg_to_que,
}
use quick_chat.Chat.Logic.Fifo.{post_all, deal-post_all}
use quick_chat.Chat.Delivery.{nodes, calls, frames_handled}
use quick_chat.Chat.Logic.Wakeup

frame_test :
    make_send_node (codes "hi") (pos 2) (pos 1005)
    ≡ done (record {
      node = record { cur_len = 0; total_len = 6; bytes = 3 ∷ 237 ∷ 0 ∷ 2 ∷ b'h' ∷ b'i' ∷ 0 ∷ [] };
      msg_id = pos 1005;
    })
unfolding make_send_node
frame_test = refl

abbrev chunks : List Bytes
chunks = (3 ∷ 237 ∷ 0 ∷ []) ∷ (2 ∷ []) ∷ (b'h' ∷ b'i' ∷ []) ∷ []

abbrev bytewise : List Bytes
bytewise = (3 ∷ []) ∷ (237 ∷ []) ∷ (0 ∷ []) ∷ (2 ∷ []) ∷ (b'h' ∷ []) ∷ (b'i' ∷ []) ∷ []

abbrev hi : List (ℤ × Bytes)
hi = (pos 1005, codes "hi") ∷ []

one_message :
    run_chunks chunks start ≡ waiting (record { msg_id = pos 1005; body = codes "hi" } ∷ [])
unfolding run_chunks on_chunk start
one_message = refl

run_chunks-frames_example : run_chunks chunks start ≡ waiting (arrivals hi)
unfolding frames start on_chunk be16
run_chunks-frames_example =
    run_chunks-frames hi chunks ((omega arith, omega arith), tt) refl (omega arith)

run_chunks_regroup_example : run_chunks chunks start ≡ run_chunks bytewise start
unfolding start on_chunk
run_chunks_regroup_example =
    run_chunks_regroup chunks bytewise start (omega arith) (omega arith) refl

abbrev events : List Event
events = received (3 ∷ 237 ∷ 7 ∷ []) ∷ received (208 ∷ []) ∷ received (1 ∷ 2 ∷ []) ∷ []

run_events_bounds_example :
    PhaseFits
      (Overrun events start)
      (run_events events start).phase
      (run_events events start).buffer
run_events_bounds_example = run_events_bounds events

negative_length_stalls_example :
    let s : CSession = waiting [] in
    run_events events (on_chunk (3 ∷ 237 ∷ 255 ∷ 0 ∷ []) s) ≡ record s { phase = idle }
unfolding read_short
negative_length_stalls_example = negative_length_stalls 3 237 255 0 254 [] events refl

abbrev hello : Fifo.Op
hello = Fifo.sends (codes "hello") (pos 1006)

new_sender-Inv : Fifo.Inv new_sender
unfolding new_sender
new_sender-Inv = record { written = tt; flow = (refl, refl); bounded = omega arith }

step-accepted_example :
    (t : Sender) × (Fifo.step hello new_sender ≡ done t)
    × (Fifo.accepted t ≡ Fifo.accepted new_sender ++ Fifo.added hello new_sender)
step-accepted_example = Fifo.step-accepted hello new_sender (omega arith) new_sender-Inv

abbrev ops : List Fifo.Op
ops = hello ∷ hello ∷ Fifo.write_ends false ∷ Fifo.write_ends true ∷ hello ∷ []

run-Inv_example : (t : Sender) × (Fifo.run ops new_sender ≡ done t) × Fifo.Inv t
run-Inv_example = Fifo.run-Inv ops new_sender (omega arith) new_sender-Inv

-- User 7 is logged in on session "bb", and was on session "a" before.
abbrev relogged : Server
relogged = record {
  sessions =
      (codes "a", record { user_uid = pos 7 }) ∷ (codes "bb", record { user_uid = pos 7 }) ∷ [];
  uid_to_session = (pos 7, codes "bb") ∷ [];
  accepting = 3;
}

clear_session_forgets_relogin_example :
    (get_session (pos 7) (clear_session (codes "a") relogged) ≡ none)
    × (lookup (codes "bb") (clear_session (codes "a") relogged).sessions
        ≡ lookup (codes "bb") relogged.sessions)
unfolding get_session lookup bytes_eq
clear_session_forgets_relogin_example =
    Clear.clear_session_forgets_relogin (codes "a") (codes "bb") (record { user_uid = pos 7 })
      relogged refl refl (λ e. absurd (omega (arith, ap length e)))

abbrev server_ops : List Clear.Op
server_ops =
    Clear.accepted (codes "c") false ∷ Clear.cleared (codes "a") ∷ Clear.accepted [] true ∷ []

abbrev nobody : Server
nobody = record {
  sessions = (codes "a", record { user_uid = pos 7 }) ∷ [];
  uid_to_session = [];
  accepting = 1;
}

nobody-IsLinked : Clear.IsLinked nobody
unfolding get_session lookup
nobody-IsLinked uid id h = absurd (cc)

run-IsLinked_example : Clear.IsLinked (Clear.run server_ops nobody)
run-IsLinked_example = Clear.run-IsLinked server_ops nobody nobody-IsLinked

abbrev node : ℕ → LogicNode
node n = record { session = codes "a"; recvnode = record { msg_id = pos n; body = codes "m" } }

abbrev trace : CallBacks (List Bytes)
trace = (pos 5, λ session msg_id body seen. seen ++ body ∷ []) ∷ []

abbrev quiet : List Bytes → LogicSystem (List Bytes)
quiet w = record { msg_que = []; b_stop = false; notified = false; world = w }

deal-post_all_test :
    (t : LogicSystem (List Bytes)) × (deal_msg trace 4
        (post_all trace (node 5 ∷ node 6 ∷ node 5 ∷ []) (quiet []))
      ≡ some t)
    × (t.world ≡ drain trace (node 5 ∷ node 6 ∷ node 5 ∷ []) [])
    × (t.msg_que ≡ [])
deal-post_all_test = deal-post_all trace (node 5 ∷ node 6 ∷ node 5 ∷ []) (quiet []) refl

abbrev awake : Wakeup.System trace
awake = record { logic = quiet []; worker = Wakeup.looping; pending = 0 }

-- The worker sleeps, and a post has not notified yet.
abbrev posted : Wakeup.System trace
posted = record {
  logic = record (quiet []) { msg_que = node 5 ∷ []; notified = true };
  worker = Wakeup.asleep;
  pending = 1;
}

sleeps_and_posts : Wakeup.Reach trace awake posted
unfolding deal_round post_msg_to_que
sleeps_and_posts =
    Wakeup.next (Wakeup.next Wakeup.here (Wakeup.sleep refl refl)) (Wakeup.post (node 5) _ refl)

Reach-wakes_example :
    (posted.logic.msg_que ≡ [])
    ⊎ ((n : ℕ) × (posted.pending ≡ suc n)
        × Wakeup.Step trace posted (record posted { worker = Wakeup.looping; pending = n }))
Reach-wakes_example = Wakeup.Reach-wakes trace (λ e. cc) sleeps_and_posts refl

abbrev chat_trace : CallBacks (List Bytes)
chat_trace = (pos 1005, λ session msg_id body seen. seen ++ body ∷ []) ∷ []

frames_handled_example :
    let posts : List LogicNode = nodes (codes "a") (run_chunks chunks start).posted in
    (t : LogicSystem (List Bytes)) × (deal_msg chat_trace
        (suc (length posts))
        (post_all chat_trace posts (quiet []))
      ≡ some t)
    × (t.world ≡ calls chat_trace (codes "a") hi [])
    × (t.msg_que ≡ [])
unfolding frames start on_chunk be16
frames_handled_example =
    frames_handled chat_trace (codes "a") hi chunks (quiet []) ((omega arith, omega arith), tt) refl
      (omega arith) refl
