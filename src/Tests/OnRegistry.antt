-- ===== src/Tests/OnRegistry.antt =====
-- The chat server's map of sessions at small inputs.
use quick_chat.Prelude.Assoc.{lookup, insert}
use quick_chat.Prelude.{[], none, ◌≡◌, refl, Bytes, codes, bytes_eq, bytes_key}
use quick_chat.Chat.Session.{failed, start}
use quick_chat.Chat.Session.Cleared.{start_failed}
use quick_chat.Chat.Server.{Server}
use quick_chat.Chat.Registry.{
  System, Reach, here, next, starts, inserts, handled, started, inserted, IsRegistered,
}
use quick_chat.Chat.Registry.Reads.{Reach-IsRegistered}
use quick_chat.Chat.Registry.Leak.{failed_removed, early_error_leaks, leaked, IsOver}

abbrev server : Server
server = record { sessions = []; uid_to_session = []; accepting = 1 }

abbrev new_system : System
new_system = record { server = server; sessions = []; accepting = none }

abbrev a : Bytes
a = codes "a"

abbrev accepted : System
accepted = inserted a (started a new_system)

accepts : Reach new_system accepted
unfolding lookup
accepts = next (next here (starts a refl refl)) (inserts a refl)

Reach-IsRegistered_example : IsRegistered a accepted
unfolding lookup bytes_eq start
Reach-IsRegistered_example = Reach-IsRegistered a start refl accepts refl refl (λ e. cc)

failed_removed_example : lookup a (handled a start failed accepted).server.sessions ≡ none
unfolding lookup bytes_eq start
failed_removed_example =
    failed_removed a start failed accepted refl refl start_failed (λ e. cc) here

early_error_leaks_example :
    let t : System = started (codes "bb") (leaked a new_system) in
    Reach new_system (leaked a new_system) × IsRegistered a t × IsOver a t
unfolding lookup bytes_eq insert
early_error_leaks_example =
    early_error_leaks a new_system refl refl (next here (starts (codes "bb") refl refl))
