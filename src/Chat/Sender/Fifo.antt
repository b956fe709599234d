-- ===== src/Chat/Sender/Fifo.antt =====
-- The order and the bound of what the write side of servers/ChatServer/src/CSession.cpp sends.
use quick_chat.Prelude.{
  suc, ◌+◌, ◌≤◌, ltb, Bool, true, false, List, [], ◌∷◌, ◌++◌, ◌≡◌, refl, sym, ap, ◌∙◌, inl, inr,
  Bytes, ℤ, arith, append-nil, append_assoc, length, length-append, All, subst, Bool-cases, lt→ltb,
  if◌then◌else◌, Outcome, done, blocked, threw, crashed,
}
use quick_chat.Chat.Frame.{SendNode, to_short}
use quick_chat.Chat.Frame.Wire.{filled, make_send_node_lem}
use quick_chat.Chat.Sender.{
  Sender, new_sender, write_front, push_node, send, send_string, pop_front, handle_write,
  max_sendque,
}

-- The abstract view: all that was accepted, in order, the written and the queued nodes.
abbrev pub accepted : Sender → List SendNode
accepted s = s.issued ++ pop_front s.send_que

-- A write is outstanding exactly while there is a node to be written and no write has failed; after
-- a failure the node stays in the queue.
abbrev pub Flow : List SendNode → Bool → Bool → Type 0
Flow [] in_flight closed = (in_flight ≡ false) × (closed ≡ false)
Flow (m ∷ q) in_flight closed = in_flight ≡ (if closed then false else true)

-- The node at the front is the one that was handed to `async_write` last.
abbrev pub LastIssued : List SendNode → List SendNode → Type 0
LastIssued [] issued = Unit {0}
LastIssued (m ∷ q) issued = (before : List SendNode) × (issued ≡ before ++ m ∷ [])

pub record Inv (s : Sender) : Type 0 where
  pub written : LastIssued s.send_que s.issued
  pub flow : Flow s.send_que s.in_flight s.closed
  pub bounded : length s.send_que ≤ max_sendque + 1

new_sender-Inv : Inv new_sender
unfolding new_sender
new_sender-Inv = record { written = tt; flow = (refl, refl); bounded = omega arith }

open_sender :
    {in_flight : Bool} (closed : Bool)
    → in_flight ≡ (if closed then false else true)
    → in_flight ≡ true
    → closed ≡ false
open_sender closed f e = ground arith

module _ (issued : List SendNode) (in_flight closed : Bool) where
  abbrev with_que : List SendNode → Sender
  with_que q = record { send_que = q; issued = issued; in_flight = in_flight; closed = closed }

  push_node-Inv :
      (q : List SendNode) (m : SendNode)
      → length q ≤ max_sendque
      → Inv (with_que q)
      → Inv (push_node m (with_que q))
        × (accepted (push_node m (with_que q)) ≡ accepted (with_que q) ++ m ∷ [])
  unfolding push_node write_front pop_front
  push_node-Inv [] m h v = (
    record { written = (issued, refl); flow = ground arith; bounded = omega arith },
    simp append-nil,
  )
  push_node-Inv (x ∷ q) m h v = rw (lt→ltb 0 (suc (length q)) (omega arith)) (
    record {
      written = v.written;
      flow = v.flow;
      bounded = omega (arith, length-append q (m ∷ []));
    },
    sym (append_assoc issued q (m ∷ [])),
  )

  handle_write-Inv :
      (q : List SendNode) (m : SendNode) (error : Bool)
      → in_flight ≡ true
      → Inv (with_que (m ∷ q))
      → Inv (handle_write error (with_que (m ∷ q)))
        × (accepted (handle_write error (with_que (m ∷ q))) ≡ accepted (with_que (m ∷ q)))
  unfolding handle_write write_front pop_front
  handle_write-Inv q m true e v =
      (record { written = v.written; flow = refl; bounded = v.bounded }, refl)
  handle_write-Inv [] m false e v = (
    record { written = tt; flow = (refl, open_sender closed v.flow e); bounded = omega arith },
    refl,
  )
  handle_write-Inv (x ∷ q) m false e v = (
    record { written = (issued, refl); flow = sym e ∙ v.flow; bounded = omega (arith, v.bounded) },
    append_assoc issued (x ∷ []) q,
  )

-- What happens to the write side: a message is sent, or the outstanding write ends, with or without
-- an error. Without an outstanding write none can end.
pub data Op : Type 0 where
  sends : Bytes → ℤ → Op
  write_ends : Bool → Op

pub step : Op → Sender → Outcome Sender
step (sends msg msg_id) s = send_string msg msg_id s
step (write_ends error) s = done (if s.in_flight then handle_write error s else s)

-- The node of a message that fits.
abbrev pub node_of : Bytes → ℤ → SendNode
node_of msg msg_id = record { node = filled msg msg_id; msg_id = msg_id }

-- What an operation adds to the accepted nodes: a message, unless the queue is full.
abbrev pub added : Op → Sender → List SendNode
added (sends msg msg_id) s =
    if ltb max_sendque (length s.send_que) then [] else node_of msg msg_id ∷ []
added (write_ends error) s = []

abbrev pub OpFits : Op → Type 0
OpFits (sends msg msg_id) = length msg ≤ 32763
OpFits (write_ends error) = Unit {0}

abbrev After : Sender → List SendNode → Outcome Sender → Type 0
After s new r = (t : Sender) × (r ≡ done t) × Inv t × (accepted t ≡ accepted s ++ new)

send_string_lem :
    (msg : Bytes) (msg_id : ℤ) (s : Sender)
    → length msg ≤ 32763
    → length s.send_que ≤ max_sendque
    → send_string msg msg_id s ≡ done (push_node (node_of msg msg_id) s)
unfolding send_string send to_short
send_string_lem msg msg_id s h k = ground (arith, make_send_node_lem msg msg_id h)

sends-After :
    (msg : Bytes) (msg_id : ℤ) (s : Sender)
    → length msg ≤ 32763
    → Inv s
    → After s (added (sends msg msg_id) s) (send_string msg msg_id s)
sends-After msg msg_id s h v = elim (Bool-cases (ltb max_sendque (length s.send_que))) [
  | inl full ↦ rw full (s, unfold send_string send in rw full, v, sym (append-nil _))
  | inr free ↦
      let pushed =
        push_node-Inv s.issued s.in_flight s.closed s.send_que (node_of msg msg_id) (ground arith)
          v in
      rw free (
        push_node (node_of msg msg_id) s,
        send_string_lem msg msg_id s h (ground arith),
        pushed.0,
        pushed.1,
      )
]

write_ends-After :
    (ph : List SendNode) (error : Bool) (s : Sender)
    → s.send_que ≡ ph
    → Inv s
    → After s [] (step (write_ends error) s)
unfolding step
write_ends-After [] error s e v =
    let quiet : s.in_flight ≡ false = (subst (λ q. Flow q s.in_flight s.closed) e v.flow).0 in
    (s, ap (λ b. done (if b then handle_write error s else s)) quiet, v, sym (append-nil _))
write_ends-After (m ∷ q) error s e v = elim (Bool-cases s.in_flight) [
  | inl busy ↦
      let v' : Inv (with_que s.issued s.in_flight s.closed (m ∷ q)) = record {
        written = subst (λ q. LastIssued q s.issued) e v.written;
        flow = subst (λ q. Flow q s.in_flight s.closed) e v.flow;
        bounded = subst (λ q. length q ≤ max_sendque + 1) e v.bounded;
      } in
      let ended = handle_write-Inv s.issued s.in_flight s.closed q m error busy v' in
      let whole : s ≡ with_que s.issued s.in_flight s.closed (m ∷ q) = λ i. record {
        send_que = e i;
        issued = s.issued;
        in_flight = s.in_flight;
        closed = s.closed;
      } in
      (
        handle_write error s,
        ap (λ b. done (if b then handle_write error s else s)) busy,
        subst (λ t. Inv (handle_write error t)) (sym whole) ended.0,
        ap (λ t. accepted (handle_write error t)) whole
            ∙ ended.1
            ∙ ap accepted (sym whole)
            ∙ sym (append-nil _),
      )
  | inr quiet ↦
      (s, ap (λ b. done (if b then handle_write error s else s)) quiet, v, sym (append-nil _))
]

step-After : (op : Op) (s : Sender) → OpFits op → Inv s → After s (added op s) (step op s)
unfolding step
step-After (sends msg msg_id) s h v = sends-After msg msg_id s h v
step-After (write_ends error) s h v = write_ends-After s.send_que error s refl v

-- Any run of operations, and all that it accepts.
pub run : List Op → Sender → Outcome Sender
run [] s = done s
run (op ∷ ops) s = elim (step op s) [
  | done t ↦ run ops t
  | blocked ↦ blocked
  | threw ↦ threw
  | crashed ↦ crashed
]

-- Sending messages of at most 32763 bytes and ending writes, in any order, from a state of the
-- invariant: the run returns, at most `MAX_SENDQUE + 1` nodes are queued, the node at the front of
-- the queue is the one that was handed to `async_write` last, that write is outstanding unless it
-- has failed, and with an empty queue no write is outstanding.
pub run-Inv :
    (ops : List Op) (s : Sender)
    → All OpFits ops
    → Inv s
    → (t : Sender) × (run ops s ≡ done t) × Inv t
unfolding run
run-Inv [] s h v = (s, refl, v)
run-Inv (op ∷ ops) s (h, hs) v =
    let (t, e, w, new) = step-After op s h v in
    let (u, e', w') = run-Inv ops t hs w in (u, rw (e, run) e', w')

-- From a state of the invariant, one operation with a message of at most 32763 bytes returns, and
-- acts on the accepted nodes as on an unbounded queue: it appends the node of the message sent, or
-- nothing where the queue holds more than `MAX_SENDQUE` nodes or a write ends.
pub step-accepted :
    (op : Op) (s : Sender)
    → OpFits op
    → Inv s
    → (t : Sender) × (step op s ≡ done t) × (accepted t ≡ accepted s ++ added op s)
step-accepted op s h v = let (t, e, w, new) = step-After op s h v in (t, e, new)
