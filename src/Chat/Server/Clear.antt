-- ===== src/Chat/Server/Clear.antt =====
-- `ClearSession` of servers/ChatServer/src/CServer.cpp, and the users of the user manager.
use quick_chat.Prelude.Assoc.{lookup, lookup-erase, lookup-insert_new}
use quick_chat.Prelude.{
  Bool, true, false, List, [], ◌∷◌, none, some, ◌≡◌, ◌≢◌, refl, sym, ◌∙◌, inl, inr, Bytes,
  bytes_key, bytes_eq, bytes_eq_iff, ℤ, int_key, eqb_ℤ, eqb_ℤ_iff, arith, if◌then◌else◌,
  Option-cases,
}
use quick_chat.Chat.Server.{
  Session, Server, get_session, start_accept, handle_accept, clear_session, forget_user,
}

-- The cleared session is gone from the server, and every other session is as it was.
pub lookup-clear_session :
    (uuid j : Bytes) (s : Server)
    → lookup j (clear_session uuid s).sessions
      ≡ (if bytes_eq uuid j then none else lookup j s.sessions)
unfolding clear_session forget_user
lookup-clear_session uuid j s = elim (Option-cases (lookup uuid s.sessions)) [
  | inl e ↦ rw e (lookup-erase uuid j s.sessions)
  | inr (x, e) ↦ rw e (lookup-erase uuid j s.sessions)
]

pub get_session_cleared :
    (uuid : Bytes) (uid : ℤ) (x : Session) (s : Server)
    → lookup uuid s.sessions ≡ some x
    → get_session uid (clear_session uuid s)
      ≡ (if eqb_ℤ x.user_uid uid then none else get_session uid s)
unfolding clear_session forget_user get_session
get_session_cleared uuid uid x s e = rw e (lookup-erase x.user_uid uid s.uid_to_session)

pub get_session_unknown :
    (uuid : Bytes) (uid : ℤ) (s : Server)
    → lookup uuid s.sessions ≡ none
    → get_session uid (clear_session uuid s) ≡ get_session uid s
unfolding clear_session forget_user get_session
get_session_unknown uuid uid s e = rw e refl

-- Every user that is found has a session of the server, and that session is the user's.
abbrev pub IsLinked : Server → Type 0
IsLinked s =
    (uid : ℤ) (id : Bytes)
    → get_session uid s ≡ some id
    → (x : Session) × (lookup id s.sessions ≡ some x) × (x.user_uid ≡ uid)

-- `ClearSession` keeps the user manager free of users whose session is gone.
clear_session-IsLinked : (uuid : Bytes) (s : Server) → IsLinked s → IsLinked (clear_session uuid s)
clear_session-IsLinked uuid s linked uid id h = elim (Option-cases (lookup uuid s.sessions)) [
  | inl e ↦
      let (x, found, owner) = linked uid id (sym (get_session_unknown uuid uid s e) ∙ h) in
      (x, ground (arith, lookup-clear_session uuid id s, bytes_eq_iff uuid id, found, e), owner)
  | inr (y, e) ↦
      let kept : get_session uid s ≡ some id =
        ground (arith, get_session_cleared uuid uid y s e, h) in
      let (x, found, owner) = linked uid id kept in
      (
        x,
        ground (
          arith,
          lookup-clear_session uuid id s,
          bytes_eq_iff uuid id,
          get_session_cleared uuid uid y s e,
          eqb_ℤ_iff y.user_uid uid,
          found,
          owner,
          e,
          h,
        ),
        owner,
      )
]

handle_accept-IsLinked :
    (id : Bytes) (error : Bool) (s : Server) → IsLinked s → IsLinked (handle_accept id error s)
unfolding handle_accept start_accept get_session
handle_accept-IsLinked id true s linked uid j h = linked uid j h
handle_accept-IsLinked id false s linked uid j h =
    let (x, found, owner) = linked uid j h in
    (x, lookup-insert_new id j _ x s.sessions found, owner)

-- What the server does by itself: it accepts a connection, or an attempt fails, and clears sessions.
pub data Op : Type 0 where
  accepted : Bytes → Bool → Op
  cleared : Bytes → Op

unfoldable pub step : Op → Server → Server
step (accepted id error) s = handle_accept id error s
step (cleared uuid) s = clear_session uuid s

unfoldable pub run : List Op → Server → Server
run [] s = s
run (op ∷ ops) s = run ops (step op s)

-- Accepting and clearing, in any order, never leave the user manager with a user whose session the
-- server does not have or whose session is another user's, if there was none at the start.
pub run-IsLinked : (ops : List Op) (s : Server) → IsLinked s → IsLinked (run ops s)
unfolding run step
run-IsLinked [] s h = h
run-IsLinked (accepted id error ∷ ops) s h =
    run-IsLinked ops (handle_accept id error s) (handle_accept-IsLinked id error s h)
run-IsLinked (cleared uuid ∷ ops) s h =
    run-IsLinked ops (clear_session uuid s) (clear_session-IsLinked uuid s h)

-- A user who logged in a second time, on a new session, becomes unreachable when the old session
-- is cleared: the user manager forgets the user, though the new session is still there.
pub clear_session_forgets_relogin :
    (old new : Bytes) (x : Session) (s : Server)
    → lookup old s.sessions ≡ some x
    → get_session x.user_uid s ≡ some new
    → old ≢ new
    → (get_session x.user_uid (clear_session old s) ≡ none)
      × (lookup new (clear_session old s).sessions ≡ lookup new s.sessions)
clear_session_forgets_relogin old new x s e h ne = (
  ground (arith, get_session_cleared old x.user_uid x s e, eqb_ℤ_iff x.user_uid x.user_uid),
  ground (arith, lookup-clear_session old new s, bytes_eq_iff old new),
)
