-- ===== src/Chat/Session/Cleared.antt =====
-- A session that has called `ClearSession`, in servers/ChatServer/src/CSession.cpp.
use quick_chat.Prelude.{
  ℕ, zero, suc, true, [], ◌∷◌, ◌++◌, ◌≡◌, refl, arith, Bytes, ℤ, Outcome, done, blocked, threw,
  crashed,
}
use quick_chat.Chat.Frame.{MsgNode, make_node}
use quick_chat.Chat.Session.{
  CSession, Phase, read_over, Event, received, failed, reading_head, reading_body, idle, undefined,
  fail, read_head, body_done, read_body, read_short, accept_len, head_fields, head_done, on_chunk,
  on_error, step, start,
}

fail_cleared : (s : CSession) → (fail s).cleared ≡ true
unfolding fail
fail_cleared s = refl

body_done_cleared :
    (n : ℕ) (msg_id : ℤ) (read : Bytes) (s : CSession)
    → s.cleared ≡ true
    → (body_done n msg_id read s).cleared ≡ true
unfolding body_done read_head fail
body_done_cleared n msg_id read s h = ground arith

accept_len_cleared :
    (m : Outcome MsgNode) (msg_id : ℤ) (s : CSession)
    → s.cleared ≡ true
    → (accept_len m msg_id s).cleared ≡ true
unfolding accept_len
accept_len_cleared (done m) msg_id s h = read m.total_len
  where
    read : (n : ℕ) → (read_body n msg_id s).cleared ≡ true
    read zero = body_done_cleared zero msg_id [] s h
    read (suc n) = h
accept_len_cleared threw msg_id s h = h
accept_len_cleared blocked msg_id s h = h
accept_len_cleared crashed msg_id s h = h

head_fields_cleared :
    (read : Bytes) (s : CSession) → s.cleared ≡ true → (head_fields read s).cleared ≡ true
unfolding head_fields fail
head_fields_cleared [] s h = refl
head_fields_cleared (a ∷ []) s h = refl
head_fields_cleared (a ∷ b ∷ []) s h = refl
head_fields_cleared (a ∷ b ∷ c ∷ []) s h = refl
head_fields_cleared (a ∷ b ∷ c ∷ d ∷ r) s h =
    ground (arith, accept_len_cleared (make_node (read_short c d)) (read_short a b) s h)

-- A session that is cleared stays so.
pub step_cleared : (e : Event) (s : CSession) → s.cleared ≡ true → (step e s).cleared ≡ true
unfolding step on_chunk on_error head_done fail
step_cleared failed s h =
    elim s.phase as (λ p. (on_error (record s { phase = p })).cleared ≡ true) [
      | reading_head ↦ refl
      | reading_body n m ↦ refl
      | idle ↦ h
      | undefined ↦ h
    ]
step_cleared (received chunk) s h = on_phase s.phase
  where
    on_phase : (p : Phase) → (on_chunk chunk (record s { phase = p })).cleared ≡ true
    on_phase reading_head = ground (
      arith,
      head_fields_cleared (s.buffer ++ chunk) (read_over (record s { phase = reading_head })) h,
    )
    on_phase (reading_body n m) = ground (
      arith,
      body_done_cleared n m (s.buffer ++ chunk) (read_over (record s { phase = reading_body n m }))
          h,
    )
    on_phase idle = h
    on_phase undefined = h

-- An error ends a session that waits for its first header.
pub start_failed : (step failed start).cleared ≡ true
unfolding step start on_error fail
start_failed = refl
