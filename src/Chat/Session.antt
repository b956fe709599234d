-- ===== src/Chat/Session.antt =====
-- servers/ChatServer/src/CSession.cpp: the read side of a session. The socket answers a read with
-- some bytes, or with an error; the handlers run one after another, so each is a step.
pub mod Chunks
pub mod Stream
pub mod Undefined
pub mod Bounds
pub mod Cleared
use quick_chat.Prelude.{
  ℕ, zero, suc, ◌+◌, ◌*◌, ltb, leb, ltb_ℤ, Bool, true, false, List, [], ◌∷◌, ◌++◌, Option, none,
  some, ◌≡◌, refl, Bytes, ℤ, pos, negsuc, if◌then◌else◌, length, take, Outcome, done, blocked,
  threw, crashed,
}
use quick_chat.Chat.Frame.{max_length, head_total_len, to_short, MsgNode, make_node, be16}

-- What the session waits for: a header, or the body of a message of that length and id.
-- `idle`: no read is outstanding, and none will be started.
pub data Phase : Type 0 where
  reading_head : Phase
  reading_body : ℕ → ℤ → Phase
  idle : Phase
  undefined : Phase

-- A `LogicNode` holds the session and this.
pub record RecvMsg : Type 0 where
  pub msg_id : ℤ
  pub body : Bytes

-- `buffer` is the part of `data_` that the current read has filled, if there is one. `cleared`: `ClearSession` of
-- the server has been called. `posted`: what went to the queue of the logic system.
pub record CSession : Type 0 where
  pub phase : Phase
  pub buffer : Bytes
  pub b_close : Bool
  pub cleared : Bool
  pub posted : List RecvMsg

-- The constructor and `Start`.
unfoldable pub start : CSession
start = record { phase = reading_head; buffer = []; b_close = false; cleared = false; posted = [] }

-- `Close` and `ClearSession`, after an error or a short read.
pub fail : CSession → CSession
fail s = record s { phase = idle; b_close = true; cleared = true }

-- `AsyncReadHead`, which starts with the `memset` of `data_`.
pub read_head : CSession → CSession
read_head s = record s { phase = reading_head; buffer = [] }

-- The handler of a body read: the bytes go into the node and the node into the queue.
pub body_done : ℕ → ℤ → Bytes → CSession → CSession
unfolding fail read_head
body_done total_len msg_id read s =
    if ltb (length read) total_len
    then fail s
    else read_head (record s { posted = s.posted ++ record { msg_id = msg_id; body = read } ∷ [] })

-- `AsyncReadBody`: a read of no bytes completes at once.
pub read_body : ℕ → ℤ → CSession → CSession
unfolding body_done
read_body zero msg_id s = body_done zero msg_id [] s
read_body (suc n) msg_id s = record s { phase = reading_body (suc n) msg_id; buffer = [] }

-- Two bytes in network order, as a `short`.
unfoldable pub read_short : ℕ → ℕ → ℤ
unfolding to_short
read_short high low = to_short (high * 256 + low)

-- The `RecvNode` for the body. An exception of its constructor ends in the handler, which prints.
pub accept_len : Outcome MsgNode → ℤ → CSession → CSession
unfolding read_body
accept_len (done m) msg_id s = read_body m.total_len msg_id s
accept_len threw msg_id s = record s { phase = idle }
accept_len blocked msg_id s = record s { phase = idle }
accept_len crashed msg_id s = record s { phase = undefined }

-- The handler of a header read. A length above the maximum clears the session without closing it.
pub head_fields : Bytes → CSession → CSession
unfolding read_short accept_len make_node fail
head_fields (a ∷ b ∷ c ∷ d ∷ r) s =
    let msg_id = read_short a b in
    let msg_len = read_short c d in
    if ltb_ℤ (pos max_length) msg_len
    then record s { phase = idle; cleared = true }
    else accept_len (make_node msg_len) msg_id s
head_fields read s = fail s

pub head_done : Bytes → CSession → CSession
unfolding head_fields
head_done read s = if ltb (length read) head_total_len then fail s else head_fields read s

-- The read is over: its bytes are with the handler.
abbrev pub read_over : CSession → CSession
read_over s = record s { buffer = [] }

-- `asyncReadLen`: the handler is called once the read is full, and else the rest is asked for.
unfoldable pub on_chunk : Bytes → CSession → CSession
unfolding head_done body_done
on_chunk chunk s = elim s.phase [
  | reading_head ↦
      let read = s.buffer ++ chunk in
      if leb head_total_len (length read)
      then head_done read (read_over s)
      else record s { buffer = read }
  | reading_body total_len msg_id ↦
      let read = s.buffer ++ chunk in
      if leb total_len (length read)
      then body_done total_len msg_id read (read_over s)
      else record s { buffer = read }
  | idle ↦ s
  | undefined ↦ s
]

-- The same with an error: both handlers close and clear the session.
pub on_error : CSession → CSession
unfolding fail
on_error s = elim s.phase [
  | reading_head ↦ fail (read_over s)
  | reading_body total_len msg_id ↦ fail (read_over s)
  | idle ↦ s
  | undefined ↦ s
]

pub data Event : Type 0 where
  received : Bytes → Event
  failed : Event

unfoldable pub step : Event → CSession → CSession
unfolding on_chunk on_error
step (received chunk) s = on_chunk chunk s
step failed s = on_error s

unfoldable pub run_chunks : List Bytes → CSession → CSession
run_chunks [] s = s
run_chunks (c ∷ cs) s = run_chunks cs (on_chunk c s)
