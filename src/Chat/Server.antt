-- ===== src/Chat/Server.antt =====
-- servers/ChatServer/src/CServer.cpp and servers/ChatServer/src/UserMgr.cpp: the sessions of the
-- server and the users that are logged in. The server and the user manager share the sessions; a
-- session is named by its id, which is a fresh UUID.
pub mod Clear
pub mod Accept
use quick_chat.Prelude.Assoc.{lookup, insert, insert_new, erase}
use quick_chat.Prelude.{
  ℕ, ◌+◌, Bool, true, false, List, [], ◌∷◌, Option, none, some, ◌≡◌, Bytes, bytes_key, ℤ, pos,
  int_key, if◌then◌else◌,
}

-- What the server reads of a `CSession`: `user_uid_`, which is 0 before a login.
pub record Session : Type 0 where
  pub user_uid : ℤ

-- `sessions`: the map of `CServer`. `uid_to_session`: the map of `UserMgr`, which holds the session
-- itself; here its id. `accepting`: the calls of `async_accept` so far.
pub record Server : Type 0 where
  pub sessions : List (Bytes × Session)
  pub uid_to_session : List (ℤ × Bytes)
  pub accepting : ℕ

-- `UserMgr::GetSession`
unfoldable pub get_session : ℤ → Server → Option Bytes
get_session uid s = lookup uid s.uid_to_session

-- `UserMgr::SetUserSession`
unfoldable set_user_session : ℤ → Bytes → Server → Server
set_user_session uid session s = record s { uid_to_session = insert uid session s.uid_to_session }

-- `UserMgr::RmvUserSession`
rmv_user_session : ℤ → Server → Server
rmv_user_session uid s = record s { uid_to_session = erase uid s.uid_to_session }

-- `CServer::StartAccept`
pub start_accept : Server → Server
start_accept s = record s { accepting = s.accepting + 1 }

-- `CServer::HandleAccept`; the flag is the error. A new session has no user yet.
pub handle_accept : Bytes → Bool → Server → Server
unfolding start_accept
handle_accept session_id error s =
    if error
    then start_accept s
    else start_accept
        (record s { sessions = insert_new session_id (record { user_uid = pos 0 }) s.sessions })

-- The first part of `CServer::ClearSession`.
pub forget_user : Option Session → Server → Server
unfolding rmv_user_session
forget_user none s = s
forget_user (some session) s = rmv_user_session session.user_uid s

-- `CServer::ClearSession`, with its search of the map and its erasure as one step. The search runs
-- before the mutex is taken; what a race with other threads makes of it is not modelled.
pub clear_session : Bytes → Server → Server
unfolding forget_user
clear_session uuid s =
    let t = forget_user (lookup uuid s.sessions) s in record t { sessions = erase uuid t.sessions }
