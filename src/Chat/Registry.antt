-- ===== src/Chat/Registry.antt =====
-- The sessions that read and the map of the server: servers/ChatServer/src/CServer.cpp with
-- servers/ChatServer/src/CSession.cpp. `HandleAccept` runs on the thread of the acceptor, and starts
-- the session before it puts it into the map; the handlers of the session run on a thread of the
-- pool, so that they can come between.
-- Nothing in the server calls `Send`, so that no `HandleWrite` runs.
pub mod Reads
pub mod Leak
use quick_chat.Prelude.Assoc.{lookup, insert}
use quick_chat.Prelude.{
  Bool, true, false, List, [], ◌∷◌, Option, none, some, ◌≡◌, Bytes, bytes_key, not, ◌&&◌,
  if◌then◌else◌,
}
use quick_chat.Chat.Session.{CSession, Event, start, step}
use quick_chat.Chat.Server.{Server, Session, handle_accept, clear_session}

-- `sessions`: every session that was started, by its id. `accepting`: the session that
-- `HandleAccept` has started and not yet put into the map.
pub record System : Type 0 where
  pub server : Server
  pub sessions : List (Bytes × CSession)
  pub accepting : Option Bytes

-- What a handler of the session with this id does to the server: `ClearSession`, if it calls it.
pub report : Bytes → CSession → CSession → Server → Server
report id before after server =
    if not before.cleared && after.cleared then clear_session id server else server

-- The first half of `HandleAccept`: the session starts. A `Start` that throws is in Startup.Listen.
abbrev pub started : Bytes → System → System
started id s = record s { sessions = (id, start) ∷ s.sessions; accepting = some id }

-- The second half: the session is put into the map.
abbrev pub inserted : Bytes → System → System
inserted id s = record s { server = handle_accept id false s.server; accepting = none }

-- A handler of the session with this id, in the state `c`.
abbrev pub handled : Bytes → CSession → Event → System → System
handled id c e s = record s {
  server = report id c (step e c) s.server;
  sessions = insert id (step e c) s.sessions;
}

-- The id of a session is a fresh UUID.
pub data Step (s : System) : System → Type 0 where
  starts : (id : Bytes) → s.accepting ≡ none → lookup id s.sessions ≡ none → Step s (started id s)
  inserts : (id : Bytes) → s.accepting ≡ some id → Step s (inserted id s)
  -- `HandleAccept` with an error.
  refuses :
      (id : Bytes)
      → s.accepting ≡ none
      → Step s (record s { server = handle_accept id true s.server })
  handles :
      (id : Bytes) (c : CSession) (e : Event)
      → lookup id s.sessions ≡ some c
      → Step s (handled id c e s)

pub data Reach (s : System) : System → Type 0 where
  here : Reach s s
  next : {t u : System} → Reach s t → Step t u → Reach s u

-- The map of the server holds the id.
abbrev pub IsRegistered : Bytes → System → Type 0
IsRegistered id s = (x : Session) × (lookup id s.server.sessions ≡ some x)
