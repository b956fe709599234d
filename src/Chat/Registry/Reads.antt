-- ===== src/Chat/Registry/Reads.antt =====
-- The sessions that still read.
use quick_chat.Prelude.Assoc.{lookup, insert, lookup-insert}
use quick_chat.Prelude.{
  false, List, [], ◌∷◌, some, ◌≡◌, ◌≢◌, sym, ap, subst, ◌∙◌, ◌⊎◌, inl, inr, arith, Bytes, bytes_key,
  bytes_eq, bytes_eq_iff, Bool-cases,
}
use quick_chat.Chat.Session.{CSession, start, step}
use quick_chat.Chat.Session.Cleared.{step_cleared}
use quick_chat.Chat.Server.{Server, Session, handle_accept}
use quick_chat.Chat.Server.Clear.{lookup-clear_session}
use quick_chat.Chat.Server.Accept.{lookup-handle_accept, handle_accept_found, handle_accept_error}
use quick_chat.Chat.Registry.{
  System, report, Step, starts, inserts, refuses, handles, Reach, here, next, IsRegistered,
}

-- A session that is not cleared, other than the one that is being accepted, is in the map.
ReadersRegistered : System → Type 0
ReadersRegistered s =
    (id : Bytes) (c : CSession)
    → lookup id s.sessions ≡ some c
    → c.cleared ≡ false
    → s.accepting ≢ some id
    → IsRegistered id s

pub bytes_cases : (a b : Bytes) → (a ≡ b) ⊎ (a ≢ b)
bytes_cases a b = elim (Bool-cases (bytes_eq a b)) [
  | inl h ↦ inl ((bytes_eq_iff a b).0 h)
  | inr h ↦ inr (λ e. ground (arith, bytes_eq_iff a b))
]

-- The handler of another session, and one that clears nothing, leave an entry of the map alone.
pub lookup-report :
    (id j : Bytes) (before after : CSession) (s : Server)
    → id ≢ j
    → lookup j (report id before after s).sessions ≡ lookup j s.sessions
unfolding report
lookup-report id j before after s ne =
    ground (arith, lookup-clear_session id j s, bytes_eq_iff id j)

pub report_uncleared :
    (id : Bytes) (before after : CSession) (s : Server)
    → after.cleared ≡ false
    → report id before after s ≡ s
unfolding report
report_uncleared id before after s h = ground arith

-- The entry that an id has after a handler.
pub lookup_handled :
    (id j : Bytes) (c d : CSession) (m : List (Bytes × CSession))
    → lookup j (insert id d m) ≡ some c
    → ((id ≡ j) × (c ≡ d)) ⊎ ((id ≢ j) × (lookup j m ≡ some c))
lookup_handled id j c d m h = elim (bytes_cases id j) [
  | inl e ↦ inl (e, ground (arith, lookup-insert id j d m, bytes_eq_iff id j))
  | inr ne ↦ inr (ne, ground (arith, lookup-insert id j d m, bytes_eq_iff id j))
]

pub lookup_started :
    (id j : Bytes) (d : CSession) (m : List (Bytes × CSession))
    → id ≢ j
    → lookup j ((id, d) ∷ m) ≡ lookup j m
unfolding lookup
lookup_started id j d m ne = ground (arith, bytes_eq_iff id j)

Step-ReadersRegistered : {s t : System} → Step s t → ReadersRegistered s → ReadersRegistered t
unfolding ReadersRegistered
Step-ReadersRegistered {s} (starts id quiet fresh) v j c found reads other =
    let ne : id ≢ j = λ e. other (ap some e) in
    v j c (sym (lookup_started id j start s.sessions ne) ∙ found) reads (λ h. cc)
Step-ReadersRegistered {s} (inserts id busy) v j c found reads other = elim (bytes_cases id j) [
  | inl e ↦
      subst (λ k. (x : Session) × (lookup k (handle_accept id false s.server).sessions ≡ some x)) e
        (handle_accept_found id s.server)
  | inr ne ↦
      let (x, kept) = v j c found reads (λ h. ne (ground (arith, busy, h))) in
      (x, lookup-handle_accept id j s.server ne ∙ kept)
]
Step-ReadersRegistered {s} (refuses id quiet) v j c found reads other =
    let (x, kept) = v j c found reads other in
    (x, ap (lookup j) (handle_accept_error id s.server) ∙ kept)
Step-ReadersRegistered {s} (handles id b e held) v j c found reads other =
    elim (lookup_handled id j c (step e b) s.sessions found) [
      | inl (same, ends) ↦
          let reading : b.cleared ≡ false = elim (Bool-cases b.cleared) [
            | inl k ↦ absurd (ground (arith, step_cleared e b k))
            | inr k ↦ k
          ] in
          let (x, kept) = v j b (ap (λ k. lookup k s.sessions) (sym same) ∙ held) reading other in
          (
            x,
            ap (λ (u : Server). lookup j u.sessions)
                  (report_uncleared id b (step e b) s.server (ground arith))
                ∙ kept,
          )
      | inr (ne, before) ↦
          let (x, kept) = v j c before reads other in
          (x, lookup-report id j b (step e b) s.server ne ∙ kept)
    ]

Reach-ReadersRegistered : {s t : System} → s.sessions ≡ [] → Reach s t → ReadersRegistered t
unfolding ReadersRegistered lookup
Reach-ReadersRegistered none_yet here j d found reads other =
    absurd (ground (arith, ap (lookup j) none_yet, found))
Reach-ReadersRegistered none_yet (next q st) j d found reads other =
    Step-ReadersRegistered st (Reach-ReadersRegistered none_yet q) j d found reads other

-- No session that reads is lost: from a server that has accepted none, in whatever order the
-- acceptor and the handlers of the sessions run, every session that has not called `ClearSession`
-- is in the map of the server, but for the one that `HandleAccept` has yet to put there.
pub Reach-IsRegistered :
    {s t : System} (id : Bytes) (c : CSession)
    → s.sessions ≡ []
    → Reach s t
    → lookup id t.sessions ≡ some c
    → c.cleared ≡ false
    → t.accepting ≢ some id
    → IsRegistered id t
unfolding ReadersRegistered
Reach-IsRegistered id c none_yet r = Reach-ReadersRegistered none_yet r id c
