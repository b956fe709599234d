-- ===== src/Chat/Session/Stream.antt =====
-- The frames of `SendNode` at the reading end, servers/ChatServer/src/CSession.cpp.
use quick_chat.Prelude.{
  ℕ, suc, ◌+◌, ◌*◌, ◌/◌, ◌%◌, ◌≤◌, false, List, [], ◌∷◌, ◌++◌, ◌≡◌, refl, sym, ap, ◌∙◌, Bytes, ℤ,
  pos, arith, append-nil, append_assoc, length, All,
}
use quick_chat.Chat.Frame.{max_length, to_short, bits16, be16, make_node}
use quick_chat.Chat.Frame.Wire.{IsShort, to_short-bits16, framed}
use quick_chat.Chat.Session.{
  reading_head, reading_body, RecvMsg, CSession, start, on_chunk, run_chunks, head_done,
  head_fields, accept_len, body_done, read_body, read_head, read_short,
}
use quick_chat.Chat.Session.Chunks.{AllFit, flat, feed, feed-append, on_chunk-feed, run_chunks-feed}

-- A session that waits for a header, with what it has posted.
abbrev pub waiting : List RecvMsg → CSession
waiting posted = record {
  phase = reading_head;
  buffer = [];
  b_close = false;
  cleared = false;
  posted = posted;
}

read_short-be16 : (z : ℤ) → IsShort z → read_short (bits16 z / 256) (bits16 z % 256) ≡ z
unfolding read_short
read_short-be16 z h =
    let whole : bits16 z / 256 * 256 + bits16 z % 256 ≡ bits16 z = omega arith in
    ap to_short whole ∙ to_short-bits16 z h

abbrev body_state : ℕ → ℤ → List RecvMsg → CSession
body_state n msg_id posted = record {
  phase = reading_body n msg_id;
  buffer = [];
  b_close = false;
  cleared = false;
  posted = posted;
}

feed_head :
    (n : ℕ) (msg_id : ℤ) (posted : List RecvMsg)
    → IsShort msg_id
    → n ≤ max_length
    → feed (be16 msg_id ++ be16 (pos n)) (waiting posted) ≡ read_body n msg_id (waiting posted)
unfolding be16
feed_head n msg_id posted h k =
    let i = bits16 msg_id in
    let l = bits16 (pos n) in
    let header : Bytes = i / 256 ∷ i % 256 ∷ l / 256 ∷ l % 256 ∷ [] in
    sym (on_chunk-feed header (waiting posted) (omega arith, omega arith)) ∙ whole_head
  where
    whole_head :
        on_chunk
          (bits16 msg_id / 256
            ∷ bits16 msg_id % 256
            ∷ bits16 (pos n) / 256
            ∷ bits16 (pos n) % 256
            ∷ [])
          (waiting posted)
        ≡ read_body n msg_id (waiting posted)
    whole_head =
        unfold on_chunk head_done head_fields accept_len make_node read_short in
        ground (arith, read_short-be16 msg_id h, read_short-be16 (pos n) (omega arith))

feed_body :
    (msg : Bytes) (msg_id : ℤ) (posted : List RecvMsg)
    → feed msg (read_body (length msg) msg_id (waiting posted))
      ≡ waiting (posted ++ record { msg_id = msg_id; body = msg } ∷ [])
unfolding feed read_body body_done read_head
feed_body [] msg_id posted = refl
feed_body (b ∷ msg) msg_id posted =
    sym (
      on_chunk-feed (b ∷ msg) (body_state (suc (length msg)) msg_id posted)
        (omega arith, omega arith))
    ∙ whole_body
  where
    whole_body :
        on_chunk (b ∷ msg) (body_state (suc (length msg)) msg_id posted)
        ≡ waiting (posted ++ record { msg_id = msg_id; body = b ∷ msg } ∷ [])
    whole_body = unfold on_chunk in ground arith

-- A message with its id, of at most `MAX_LENGTH` bytes.
abbrev pub IsMessage : ℤ × Bytes → Type 0
IsMessage (msg_id, msg) = IsShort msg_id × (length msg ≤ max_length)

feed_frame :
    (msg_id : ℤ) (msg : Bytes) (posted : List RecvMsg)
    → IsMessage (msg_id, msg)
    → feed (framed msg msg_id) (waiting posted)
      ≡ waiting (posted ++ record { msg_id = msg_id; body = msg } ∷ [])
feed_frame msg_id msg posted (h, k) =
    ap (λ bs. feed bs (waiting posted))
      (sym (append_assoc (be16 msg_id) (be16 (pos (length msg))) msg))
    ∙ feed-append (be16 msg_id ++ be16 (pos (length msg))) msg (waiting posted)
    ∙ ap (feed msg) (feed_head (length msg) msg_id posted h k)
    ∙ feed_body msg msg_id posted

-- The bytes of messages sent one after another, and the nodes that they should arrive as.
unfoldable pub frames : List (ℤ × Bytes) → Bytes
frames [] = []
frames ((msg_id, msg) ∷ ms) = framed msg msg_id ++ frames ms

unfoldable pub arrivals : List (ℤ × Bytes) → List RecvMsg
arrivals [] = []
arrivals ((msg_id, msg) ∷ ms) = record { msg_id = msg_id; body = msg } ∷ arrivals ms

feed-frames :
    (ms : List (ℤ × Bytes)) (posted : List RecvMsg)
    → All IsMessage ms
    → feed (frames ms) (waiting posted) ≡ waiting (posted ++ arrivals ms)
unfolding frames arrivals
feed-frames [] posted h = unfold feed in ap waiting (sym (append-nil posted))
feed-frames ((msg_id, msg) ∷ ms) posted (h, hs) =
    feed-append (framed msg msg_id) (frames ms) (waiting posted)
    ∙ ap (feed (frames ms)) (feed_frame msg_id msg posted h)
    ∙ feed-frames ms _ hs
    ∙ ap waiting (append_assoc posted (record { msg_id = msg_id; body = msg } ∷ []) (arrivals ms))

-- Frames as `SendNode` lays them out, of messages of at most `MAX_LENGTH` bytes, arrive as these
-- messages in their order, with nothing left over, in whatever pieces the socket delivers the
-- bytes; and the session goes on waiting for a header.
pub run_chunks-frames :
    (ms : List (ℤ × Bytes)) (chunks : List Bytes)
    → All IsMessage ms
    → flat chunks ≡ frames ms
    → AllFit chunks start
    → run_chunks chunks start ≡ waiting (arrivals ms)
unfolding start
run_chunks-frames ms chunks h e fit =
    run_chunks-feed chunks start fit ∙ ap (λ bs. feed bs start) e ∙ feed-frames ms [] h
