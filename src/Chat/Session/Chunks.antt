-- ===== src/Chat/Session/Chunks.antt =====
-- The pieces in which the socket hands the bytes to servers/ChatServer/src/CSession.cpp.
use quick_chat.Prelude.{
  ℕ, ◌+◌, ◌≤◌, ◌<◌, List, [], ◌∷◌, ◌++◌, ◌≡◌, refl, sym, ap, ◌∙◌, Bytes, arith, append_assoc,
  length, length-append,
}
use quick_chat.Chat.Frame.{head_total_len}
use quick_chat.Chat.Session.{
  Phase, reading_head, reading_body, idle, undefined, CSession, on_chunk, run_chunks,
}

-- The bytes that the outstanding read asks for.
abbrev pub asked : Phase → ℕ
asked reading_head = head_total_len
asked (reading_body total_len msg_id) = total_len
asked idle = 0
asked undefined = 0

-- What a read may give: at least a byte, and no more than the buffer that it was given has room for.
abbrev pub Fits : Bytes → CSession → Type 0
Fits chunk s = (0 < length chunk) × (length s.buffer + length chunk ≤ asked s.phase)

abbrev pub AllFit : List Bytes → CSession → Type 0
AllFit [] s = Unit {0}
AllFit (c ∷ cs) s = Fits c s × AllFit cs (on_chunk c s)

abbrev pub flat : List Bytes → Bytes
flat [] = []
flat (c ∷ cs) = c ++ flat cs

-- The bytes one by one.
unfoldable pub feed : Bytes → CSession → CSession
feed [] s = s
feed (b ∷ bs) s = feed bs (on_chunk (b ∷ []) s)

pub feed-append : (bs cs : Bytes) (s : CSession) → feed (bs ++ cs) s ≡ feed cs (feed bs s)
unfolding feed
feed-append [] cs s = refl
feed-append (b ∷ bs) cs s = feed-append bs cs (on_chunk (b ∷ []) s)

abbrev put : ℕ → CSession → CSession
put b s = record s { buffer = s.buffer ++ b ∷ [] }

-- A byte that does not fill the read.
on_chunk_one :
    (ph : Phase) (b : ℕ) (s : CSession)
    → s.phase ≡ ph
    → length s.buffer + 1 < asked ph
    → on_chunk (b ∷ []) s ≡ put b s
unfolding on_chunk
on_chunk_one reading_head b s e h = ground (arith, length-append s.buffer (b ∷ []))
on_chunk_one (reading_body n id) b s e h = ground (arith, length-append s.buffer (b ∷ []))
on_chunk_one idle b s e h = elim h [ ]
on_chunk_one undefined b s e h = elim h [ ]

-- A chunk acts through what it appends to the buffer.
on_chunk-put :
    (ph : Phase) (b : ℕ) (bs : Bytes) (s : CSession)
    → s.phase ≡ ph
    → 0 < asked ph
    → on_chunk (b ∷ bs) s ≡ on_chunk bs (put b s)
unfolding on_chunk
on_chunk-put reading_head b bs s e h =
    let assoc = append_assoc s.buffer (b ∷ []) bs in rw e (rw assoc refl)
on_chunk-put (reading_body n id) b bs s e h =
    let assoc = append_assoc s.buffer (b ∷ []) bs in rw e (rw assoc refl)
on_chunk-put idle b bs s e h = elim h [ ]
on_chunk-put undefined b bs s e h = elim h [ ]

pub on_chunk-feed : (chunk : Bytes) (s : CSession) → Fits chunk s → on_chunk chunk s ≡ feed chunk s
unfolding feed
on_chunk-feed [] s (h, k) = elim h [ ]
on_chunk-feed (b ∷ []) s (h, k) = refl
on_chunk-feed (b ∷ c ∷ cs) s (h, k) =
    let one = on_chunk_one s.phase b s refl (omega arith) in
    let rest =
      on_chunk-feed (c ∷ cs) (put b s)
        (omega arith, omega (arith, length-append s.buffer (b ∷ []))) in
    on_chunk-put s.phase b (c ∷ cs) s refl (omega arith) ∙ rest ∙ ap (feed (c ∷ cs)) (sym one)

pub run_chunks-feed :
    (cs : List Bytes) (s : CSession) → AllFit cs s → run_chunks cs s ≡ feed (flat cs) s
unfolding run_chunks
run_chunks-feed [] s h = unfold feed in refl
run_chunks-feed (c ∷ cs) s (h, hs) =
    run_chunks-feed cs (on_chunk c s) hs
    ∙ ap (feed (flat cs)) (on_chunk-feed c s h)
    ∙ sym (feed-append c (flat cs) s)

-- However the socket cuts the same bytes into reads, of which none is longer than what was asked
-- for, the session ends in the same state.
pub run_chunks_regroup :
    (cs ds : List Bytes) (s : CSession)
    → AllFit cs s
    → AllFit ds s
    → flat cs ≡ flat ds
    → run_chunks cs s ≡ run_chunks ds s
run_chunks_regroup cs ds s h k e =
    run_chunks-feed cs s h ∙ ap (λ bs. feed bs s) e ∙ sym (run_chunks-feed ds s k)
