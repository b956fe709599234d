-- ===== src/Chat/Server/Accept.antt =====
-- `HandleAccept` of servers/ChatServer/src/CServer.cpp, on the map of the sessions.
use quick_chat.Prelude.Assoc.{lookup, lookup-insert_new_other, insert_new_found}
use quick_chat.Prelude.{false, true, some, ◌≡◌, ◌≢◌, refl, Bytes, bytes_key, pos}
use quick_chat.Chat.Server.{Server, Session, handle_accept, start_accept}

pub lookup-handle_accept :
    (id j : Bytes) (s : Server)
    → id ≢ j
    → lookup j (handle_accept id false s).sessions ≡ lookup j s.sessions
unfolding handle_accept start_accept
lookup-handle_accept id j s ne =
    lookup-insert_new_other id j (record { user_uid = pos 0 }) s.sessions ne

-- The new session is in the map.
pub handle_accept_found :
    (id : Bytes) (s : Server)
    → (x : Session) × (lookup id (handle_accept id false s).sessions ≡ some x)
unfolding handle_accept start_accept
handle_accept_found id s = insert_new_found id (record { user_uid = pos 0 }) s.sessions

pub handle_accept_error :
    (id : Bytes) (s : Server) → (handle_accept id true s).sessions ≡ s.sessions
unfolding handle_accept start_accept
handle_accept_error id s = refl
