-- ===== src/Chat/Session/Bounds.antt =====
-- What the reads of servers/ChatServer/src/CSession.cpp ask for, and headers with a bad length.
use quick_chat.Prelude.{
  ℕ, zero, suc, ◌≤◌, ◌<◌, leb, ltb, ltb_ℤ, Bool, false, List, [], ◌∷◌, ◌++◌, ◌≡◌, refl, inl, inr,
  ◌⊎◌, Bytes, ℤ, pos, negsuc, arith, length, Bool-cases,
}
use quick_chat.Chat.Frame.{max_length, head_total_len, make_node}
use quick_chat.Chat.Session.{
  Phase, reading_head, reading_body, idle, undefined, RecvMsg, CSession, start, on_chunk, on_error,
  Event, received, failed, step, head_done, head_fields, accept_len, body_done, read_body,
  read_head, read_short, read_over, fail,
}
use quick_chat.Chat.Session.Undefined.{MinusOne, step_undefined}

-- What a read asks for fits into `data_`, and a read that goes on has not all of it; `overrun` is
-- what there is to say where it does not fit.
abbrev pub PhaseFits : Type 0 → Phase → Bytes → Type 0
PhaseFits overrun reading_head buffer = length buffer < head_total_len
PhaseFits overrun (reading_body n msg_id) buffer = (n ≤ max_length) × (length buffer < n)
PhaseFits overrun idle buffer = Unit
PhaseFits overrun undefined buffer = overrun

PhaseFits-map :
    (P Q : Type 0) (ph : Phase) (buffer : Bytes)
    → PhaseFits P ph buffer
    → (ph ≡ undefined → Q)
    → PhaseFits Q ph buffer
PhaseFits-map P Q reading_head buffer h q = h
PhaseFits-map P Q (reading_body n msg_id) buffer h q = h
PhaseFits-map P Q idle buffer h q = h
PhaseFits-map P Q undefined buffer h q = q refl

pub record Inv (s : CSession) : Type 0 where
  fits : PhaseFits Unit s.phase s.buffer

start-Inv : Inv start
unfolding start
start-Inv = record { fits = omega arith }

read_body-Inv : (n : ℕ) (msg_id : ℤ) (s : CSession) → n ≤ max_length → Inv (read_body n msg_id s)
unfolding read_body body_done read_head fail
read_body-Inv zero msg_id s h = record { fits = omega arith }
read_body-Inv (suc n) msg_id s h = record { fits = (h, omega arith) }

body_done-Inv :
    (n : ℕ) (msg_id : ℤ) (read : Bytes) (s : CSession)
    → n ≤ length read
    → Inv (body_done n msg_id read s)
unfolding body_done read_head fail
body_done-Inv n msg_id read s h = record { fits = ground arith }

accept_len-Inv :
    (len msg_id : ℤ) (s : CSession)
    → ltb_ℤ (pos max_length) len ≡ false
    → Inv (accept_len (make_node len) msg_id s)
unfolding accept_len make_node
accept_len-Inv (pos n) msg_id s h = read_body-Inv n msg_id s (ground arith)
accept_len-Inv (negsuc zero) msg_id s h = record { fits = tt }
accept_len-Inv (negsuc (suc n)) msg_id s h = record { fits = tt }

head_fields-Inv : (read : Bytes) (s : CSession) → Inv (head_fields read s)
unfolding head_fields fail
head_fields-Inv [] s = record { fits = tt }
head_fields-Inv (a ∷ []) s = record { fits = tt }
head_fields-Inv (a ∷ b ∷ []) s = record { fits = tt }
head_fields-Inv (a ∷ b ∷ c ∷ []) s = record { fits = tt }
head_fields-Inv (a ∷ b ∷ c ∷ d ∷ r) s =
    elim (Bool-cases (ltb_ℤ (pos max_length) (read_short c d))) [
      | inl e ↦ rw e (record { fits = tt })
      | inr e ↦ rw e (accept_len-Inv (read_short c d) (read_short a b) s e)
    ]

module _ (buffer : Bytes) (b_close cleared : Bool) (posted : List RecvMsg) where
  abbrev at_phase : Phase → CSession
  at_phase ph = record {
    phase = ph;
    buffer = buffer;
    b_close = b_close;
    cleared = cleared;
    posted = posted;
  }

  on_chunk-Inv :
      (ph : Phase) (chunk : Bytes) → Inv (at_phase ph) → Inv (on_chunk chunk (at_phase ph))
  unfolding on_chunk head_done
  on_chunk-Inv reading_head chunk v =
      elim (Bool-cases (leb head_total_len (length (buffer ++ chunk)))) [
        | inl e ↦ rw e (elim (Bool-cases (ltb (length (buffer ++ chunk)) head_total_len)) [
          | inl f ↦ rw f (unfold fail in record { fits = tt })
          | inr f ↦ rw f (head_fields-Inv (buffer ++ chunk) _)
        ])
        | inr e ↦ rw e (record { fits = ground arith })
      ]
  on_chunk-Inv (reading_body n msg_id) chunk v =
      elim (Bool-cases (leb n (length (buffer ++ chunk)))) [
        | inl e ↦ rw e (
            body_done-Inv n msg_id (buffer ++ chunk) (read_over (at_phase (reading_body n msg_id)))
              (ground arith))
        | inr e ↦ rw e (record { fits = (v.fits.0, ground arith) })
      ]
  on_chunk-Inv idle chunk v = record { fits = tt }
  on_chunk-Inv undefined chunk v = record { fits = tt }

  on_error-Inv : (ph : Phase) → Inv (at_phase ph) → Inv (on_error (at_phase ph))
  unfolding on_error fail
  on_error-Inv reading_head v = record { fits = tt }
  on_error-Inv (reading_body n msg_id) v = record { fits = tt }
  on_error-Inv idle v = record { fits = tt }
  on_error-Inv undefined v = record { fits = tt }

step-Inv : (ev : Event) (s : CSession) → Inv s → Inv (step ev s)
unfolding step
step-Inv (received chunk) s v = on_chunk-Inv s.buffer s.b_close s.cleared s.posted s.phase chunk v
step-Inv failed s v = on_error-Inv s.buffer s.b_close s.cleared s.posted s.phase v

pub run_events : List Event → CSession → CSession
run_events [] s = s
run_events (ev ∷ evs) s = run_events evs (step ev s)

run_events-Inv : (evs : List Event) (s : CSession) → Inv s → Inv (run_events evs s)
unfolding run_events
run_events-Inv [] s v = v
run_events-Inv (ev ∷ evs) s v = run_events-Inv evs (step ev s) (step-Inv ev s v)

-- One of the events completes a header, and its length is -1.
abbrev pub Overrun : List Event → CSession → Type 0
Overrun [] s = ⊥
Overrun (ev ∷ evs) s = MinusOne ev s ⊎ Overrun evs (step ev s)

run_undefined :
    (evs : List Event) (s : CSession)
    → (run_events evs s).phase ≡ undefined
    → (s.phase ≡ undefined) ⊎ Overrun evs s
unfolding run_events
run_undefined [] s h = inl h
run_undefined (ev ∷ evs) s h = elim (run_undefined evs (step ev s) h) [
  | inr o ↦ inr (inr o)
  | inl e ↦ elim (step_undefined ev s e) [ inl e' ↦ inl e' | inr m ↦ inr (inl m) ]
]

start_undefined :
    (evs : List Event) → (start.phase ≡ undefined) ⊎ Overrun evs start → Overrun evs start
unfolding start
start_undefined evs (inl e) = absurd (cc)
start_undefined evs (inr o) = o

-- After any reads and errors, a read that is outstanding asks for at most `MAX_LENGTH` bytes, the
-- size of `data_`, and still lacks some of them, unless a header has come with a length of -1 (a
-- length field of 0xffff): the only way to a read that does not fit.
pub run_events_bounds :
    (evs : List Event)
    → PhaseFits (Overrun evs start) (run_events evs start).phase (run_events evs start).buffer
run_events_bounds evs =
    PhaseFits-map Unit (Overrun evs start) (run_events evs start).phase
      (run_events evs start).buffer (run_events-Inv evs start start-Inv).fits
      (λ h. start_undefined evs (run_undefined evs start h))

-- Once no read is outstanding none ever is again, and nothing more is posted.
run_events_idle : (evs : List Event) (s : CSession) → s.phase ≡ idle → run_events evs s ≡ s
unfolding run_events step on_chunk on_error
run_events_idle [] s e = refl
run_events_idle (received c ∷ evs) s e = ground (arith, run_events_idle evs s e)
run_events_idle (failed ∷ evs) s e = ground (arith, run_events_idle evs s e)

-- A header with a length below -1 (a length field of 0x8000 to 0xfffe) leaves the session with no
-- read outstanding, neither closed nor cleared: it stays registered at the server, and
-- whatever the client goes on to send, it does not change.
pub negative_length_stalls :
    (a b c d n : ℕ) (posted : List RecvMsg) (evs : List Event)
    → read_short c d ≡ negsuc (suc n)
    → let s : CSession = record {
      phase = reading_head;
      buffer = [];
      b_close = false;
      cleared = false;
      posted = posted;
    } in
      run_events evs (on_chunk (a ∷ b ∷ c ∷ d ∷ []) s) ≡ record s { phase = idle }
unfolding on_chunk head_done head_fields accept_len make_node
negative_length_stalls a b c d n posted evs e =
    let t : CSession = record {
      phase = idle;
      buffer = [];
      b_close = false;
      cleared = false;
      posted = posted;
    } in
    ground (arith, run_events_idle evs t refl)
