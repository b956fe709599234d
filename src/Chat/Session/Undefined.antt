-- ===== src/Chat/Session/Undefined.antt =====
-- Headers in servers/ChatServer/src/CSession.cpp with a length of -1 (a length field of 0xffff), for
-- which the session asks for more bytes than there are in `data_`.
use quick_chat.Prelude.{
  ℕ, zero, suc, leb, ltb, ltb_ℤ, Bool, List, [], ◌∷◌, ◌++◌, ◌≡◌, refl, inl, inr, ◌⊎◌, Bytes, ℤ, pos,
  negsuc, arith, length, Bool-cases,
}
use quick_chat.Chat.Frame.{max_length, head_total_len, make_node}
use quick_chat.Chat.Session.{
  Phase, reading_head, reading_body, idle, undefined, RecvMsg, CSession, on_chunk, on_error, Event,
  received, failed, step, head_done, head_fields, accept_len, body_done, read_body, read_head,
  read_short, read_over, fail,
}

-- The event completes a header, and its length is -1.
abbrev pub MinusOne : Event → CSession → Type 0
MinusOne ev s =
    (chunk : Bytes) × (a : ℕ) × (b : ℕ) × (c : ℕ) × (d : ℕ) × (r : Bytes) × (ev ≡ received chunk)
    × (s.phase ≡ reading_head)
    × (s.buffer ++ chunk ≡ a ∷ b ∷ c ∷ d ∷ r)
    × (read_short c d ≡ negsuc 0)

body_done_defined :
    (n : ℕ) (msg_id : ℤ) (read : Bytes) (s : CSession)
    → (body_done n msg_id read s).phase ≡ undefined
    → ⊥
unfolding body_done read_head fail
body_done_defined n msg_id read s h = ground (arith, h)

accept_len_undefined :
    (len msg_id : ℤ) (s : CSession)
    → (accept_len (make_node len) msg_id s).phase ≡ undefined
    → len ≡ negsuc 0
unfolding accept_len make_node read_body
accept_len_undefined (pos zero) msg_id s h = absurd (body_done_defined 0 msg_id [] s h)
accept_len_undefined (pos (suc n)) msg_id s h = absurd (cc)
accept_len_undefined (negsuc zero) msg_id s h = refl
accept_len_undefined (negsuc (suc n)) msg_id s h = absurd (cc)

head_fields_undefined :
    (read : Bytes) (s : CSession)
    → (head_fields read s).phase ≡ undefined
    → (a : ℕ) × (b : ℕ) × (c : ℕ) × (d : ℕ) × (r : Bytes) × (read ≡ a ∷ b ∷ c ∷ d ∷ r)
      × (read_short c d ≡ negsuc 0)
unfolding head_fields fail
head_fields_undefined [] s h = absurd (cc)
head_fields_undefined (a ∷ []) s h = absurd (cc)
head_fields_undefined (a ∷ b ∷ []) s h = absurd (cc)
head_fields_undefined (a ∷ b ∷ c ∷ []) s h = absurd (cc)
head_fields_undefined (a ∷ b ∷ c ∷ d ∷ r) s h =
    elim (Bool-cases (ltb_ℤ (pos max_length) (read_short c d))) [
      | inl e ↦ absurd (ground (arith, e, h))
      | inr e ↦ (
        a,
        b,
        c,
        d,
        r,
        refl,
        accept_len_undefined (read_short c d) (read_short a b) s (ground (arith, e, h)),
      )
    ]

module _ (buffer : Bytes) (b_close cleared : Bool) (posted : List RecvMsg) where
  abbrev at_phase : Phase → CSession
  at_phase ph = record {
    phase = ph;
    buffer = buffer;
    b_close = b_close;
    cleared = cleared;
    posted = posted;
  }

  on_chunk_undefined :
      (ph : Phase) (chunk : Bytes)
      → (on_chunk chunk (at_phase ph)).phase ≡ undefined
      → (ph ≡ undefined) ⊎ MinusOne (received chunk) (at_phase ph)
  unfolding on_chunk head_done
  on_chunk_undefined reading_head chunk h =
      elim (Bool-cases (leb head_total_len (length (buffer ++ chunk)))) [
        | inl e ↦ elim (Bool-cases (ltb (length (buffer ++ chunk)) head_total_len)) [
          | inl f ↦ absurd (ground (arith, e, f))
          | inr f ↦
              let (a, b, c, d, r, whole, minus) =
                head_fields_undefined (buffer ++ chunk) (read_over (at_phase reading_head))
                  (ground (arith, e, f, h)) in
              inr (chunk, a, b, c, d, r, refl, refl, whole, minus)
        ]
        | inr e ↦ absurd (ground (arith, e, h))
      ]
  on_chunk_undefined (reading_body n msg_id) chunk h =
      elim (Bool-cases (leb n (length (buffer ++ chunk)))) [
        | inl e ↦ absurd (
            body_done_defined n msg_id (buffer ++ chunk)
              (read_over (at_phase (reading_body n msg_id))) (ground (arith, e, h)))
        | inr e ↦ absurd (ground (arith, e, h))
      ]
  on_chunk_undefined idle chunk h = absurd (cc)
  on_chunk_undefined undefined chunk h = inl refl

  on_error_undefined : (ph : Phase) → (on_error (at_phase ph)).phase ≡ undefined → ph ≡ undefined
  unfolding on_error fail
  on_error_undefined reading_head h = absurd (cc)
  on_error_undefined (reading_body n msg_id) h = absurd (cc)
  on_error_undefined idle h = absurd (cc)
  on_error_undefined undefined h = refl

-- Nothing but a header of length -1 makes the behaviour undefined.
pub step_undefined :
    (ev : Event) (s : CSession)
    → (step ev s).phase ≡ undefined
    → (s.phase ≡ undefined) ⊎ MinusOne ev s
unfolding step
step_undefined (received chunk) s h =
    on_chunk_undefined s.buffer s.b_close s.cleared s.posted s.phase chunk h
step_undefined failed s h = inl (on_error_undefined s.buffer s.b_close s.cleared s.posted s.phase h)
