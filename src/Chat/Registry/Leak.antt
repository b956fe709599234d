-- ===== src/Chat/Registry/Leak.antt =====
-- The sessions whose reads have failed.
use quick_chat.Prelude.Assoc.{lookup, lookup-insert}
use quick_chat.Prelude.{
  true, false, none, some, ◌≡◌, ◌≢◌, refl, ap, ◌∙◌, inl, inr, arith, Bytes, bytes_key, bytes_eq_iff,
}
use quick_chat.Chat.Session.{CSession, Event, failed, start, step}
use quick_chat.Chat.Session.Cleared.{step_cleared, start_failed}
use quick_chat.Chat.Server.{Server}
use quick_chat.Chat.Server.Clear.{lookup-clear_session}
use quick_chat.Chat.Server.Accept.{lookup-handle_accept, handle_accept_found, handle_accept_error}
use quick_chat.Chat.Registry.{
  System, report, Step, starts, inserts, refuses, handles, started, inserted, handled, Reach, here,
  next, IsRegistered,
}
use quick_chat.Chat.Registry.Reads.{bytes_cases, lookup-report, lookup_started}

-- The session has called `ClearSession`.
abbrev pub IsOver : Bytes → System → Type 0
IsOver id s = (c : CSession) × (lookup id s.sessions ≡ some c) × (c.cleared ≡ true)

-- The session is over, and `HandleAccept` has returned.
abbrev IsPast : Bytes → System → Type 0
IsPast id s = IsOver id s × (s.accepting ≢ some id)

-- What a handler of a session that is over does to the server: nothing.
report_cleared :
    (id : Bytes) (before after : CSession) (s : Server)
    → before.cleared ≡ true
    → report id before after s ≡ s
unfolding report
report_cleared id before after s h = ground arith

found_distinct :
    (j id : Bytes) (c : CSession) (s : System)
    → lookup j s.sessions ≡ some c
    → lookup id s.sessions ≡ none
    → id ≢ j
found_distinct j id c s h fresh e = ground (arith, ap (λ k. lookup k s.sessions) e, h, fresh)

Step-IsOver : {s t : System} (id : Bytes) → Step s t → IsOver id s → IsOver id t
Step-IsOver {s} j (starts id quiet fresh) (c, found, over) =
    (c, lookup_started id j start s.sessions (found_distinct j id c s found fresh) ∙ found, over)
Step-IsOver j (inserts id busy) o = o
Step-IsOver j (refuses id quiet) o = o
Step-IsOver {s} j (handles id b e held) (c, found, over) = elim (bytes_cases id j) [
  | inl same ↦ (
    step e b,
    ground (arith, lookup-insert id j (step e b) s.sessions, bytes_eq_iff id j),
    step_cleared e b (ground (arith, ap (λ k. lookup k s.sessions) same, held, found)),
  )
  | inr ne ↦ (c, ground (arith, lookup-insert id j (step e b) s.sessions, bytes_eq_iff id j), over)
]

-- A step leaves the entry of a session that is past in the map of the server as it is.
Step-kept :
    {s t : System} (id : Bytes)
    → Step s t
    → IsPast id s
    → lookup id t.server.sessions ≡ lookup id s.server.sessions
Step-kept j (starts id quiet fresh) p = refl
Step-kept {s} j (inserts id busy) (o, other) =
    lookup-handle_accept id j s.server (λ e. other (busy ∙ ap some e))
Step-kept {s} j (refuses id quiet) p = ap (lookup j) (handle_accept_error id s.server)
Step-kept {s} j (handles id b e held) ((c, found, over), other) = elim (bytes_cases id j) [
  | inl same ↦
      ap (λ (u : Server). lookup j u.sessions)
        (report_cleared id b (step e b) s.server
          (ground (arith, ap (λ k. lookup k s.sessions) same, held, found)))
  | inr ne ↦ lookup-report id j b (step e b) s.server ne
]

Step-IsPast : {s t : System} (id : Bytes) → Step s t → IsPast id s → IsPast id t
Step-IsPast {s} j (starts id quiet fresh) ((c, found, over), other) = (
  Step-IsOver {s = s} j (starts id quiet fresh) (c, found, over),
  λ h. found_distinct j id c s found fresh (ground (arith, h)),
)
Step-IsPast j (inserts id busy) (o, other) = (o, λ h. cc)
Step-IsPast j (refuses id quiet) (o, other) = (o, other)
Step-IsPast {s} j (handles id b e held) (o, other) =
    (Step-IsOver {s = s} j (handles id b e held) o, other)

Reach-IsPast :
    {s t : System} (id : Bytes)
    → Reach s t
    → IsPast id s
    → IsPast id t × (lookup id t.server.sessions ≡ lookup id s.server.sessions)
Reach-IsPast id here p = (p, refl)
Reach-IsPast id (next r st) p =
    let (q, same) = Reach-IsPast id r p in (Step-IsPast id st q, Step-kept id st q ∙ same)

-- The state of a session that a handler has just cleared.
handled-IsOver :
    (id : Bytes) (c : CSession) (e : Event) (s : System)
    → (step e c).cleared ≡ true
    → IsOver id (handled id c e s)
handled-IsOver id c e s over =
    (step e c, ground (arith, lookup-insert id id (step e c) s.sessions, bytes_eq_iff id id), over)

report_removes :
    (id : Bytes) (before after : CSession) (s : Server)
    → before.cleared ≡ false
    → after.cleared ≡ true
    → lookup id (report id before after s).sessions ≡ none
unfolding report
report_removes id before after s was over =
    ground (arith, lookup-clear_session id id s, bytes_eq_iff id id)

-- A handler that clears a session takes it out of the map for good: when `HandleAccept` has put the
-- session there before, no later step of the acceptor or of a session puts it back.
pub failed_removed :
    {t : System} (id : Bytes) (c : CSession) (e : Event) (s : System)
    → lookup id s.sessions ≡ some c
    → c.cleared ≡ false
    → (step e c).cleared ≡ true
    → s.accepting ≢ some id
    → Reach (handled id c e s) t
    → lookup id t.server.sessions ≡ none
failed_removed id c e s held was over other r =
    let (q, same) = Reach-IsPast id r (handled-IsOver id c e s over, other) in
    same ∙ report_removes id c (step e c) s.server was over

-- The session that `HandleAccept` has started, whose first read fails before it is in the map.
abbrev pub leaked : Bytes → System → System
leaked id s = inserted id (handled id start failed (started id s))

-- An error on the first read of a new session can come before `HandleAccept` puts the session into
-- the map. The session has then called `ClearSession` already, and whatever the acceptor and the
-- sessions do later, it stays in the map of the server for good.
pub early_error_leaks :
    {t : System} (id : Bytes) (s : System)
    → s.accepting ≡ none
    → lookup id s.sessions ≡ none
    → Reach (leaked id s) t
    → Reach s (leaked id s) × IsRegistered id t × IsOver id t
unfolding lookup
early_error_leaks id s quiet fresh r =
    let over : IsOver id (leaked id s) =
      handled-IsOver id start failed (started id s) start_failed in
    let ((o, other), same) = Reach-IsPast id r (over, λ h. cc) in
    let (x, found) = handle_accept_found id (report id start (step failed start) s.server) in
    (
      next
          (next (next here (starts id quiet fresh))
            (handles id start failed (ground (arith, bytes_eq_iff id id))))
          (inserts id refl),
      (x, same ∙ found),
      o,
    )
