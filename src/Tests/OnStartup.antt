-- ===== src/Tests/OnStartup.antt =====
-- The main functions at small inputs.
use quick_chat.Prelude.Assoc.{lookup, insert}
use quick_chat.Common.Text.{to_string}
use quick_chat.Prelude.{
  ℕ, ◌+◌, true, false, List, [], ◌∷◌, ◌++◌, none, ◌≡◌, refl, arith, map, length, Bytes, bytes_key,
  bytes_eq, codes, done, crashed, Option, some, ℤ, pos,
}
use quick_chat.Common.Config.{make_config, config_index}
use quick_chat.Common.Config.Load.{IniFile, config_index-make_config}
use quick_chat.Startup.Listen.{
  Event, refused, opened, gate_server, chat_server, waits_for, served, lost, NoneThrows,
  gate_server_lem, chat_server_ends,
}
use quick_chat.Startup.Build.{after_reads, make_client, server_address, make_client-server_address}
use quick_chat.Startup.Mains.{gate_main, chat_main, mains_lem}
use quick_chat.Common.Redis.Pool.{Link}
use quick_chat.Startup.StatusMain.{Process, Surroundings, main}
use quick_chat.Startup.StatusMain.NoPort.{no_port_aborts}

abbrev events : List Event
events = refused ∷ opened true ∷ opened false ∷ opened false ∷ []

-- The third connection of three services is on the third, the fourth on the first again.
served_test : served 3 0 events ≡ 2 ∷ 0 ∷ []
unfolding served
served_test = refl

gate_server_lem_example :
    gate_server 3 events ≡ (done tt, waits_for 3 (length events) (served 3 0 events))
gate_server_lem_example = gate_server_lem 3 events (omega arith)

abbrev quiet_events : List Event
quiet_events = refused ∷ opened false ∷ []

chat_server_ends_example :
    (chat_server 2 quiet_events
      ≡ (done tt, waits_for 2 (length quiet_events) (served 2 0 quiet_events)))
    × (chat_server 2 (quiet_events ++ opened true ∷ events)
        ≡ lost (waits_for 2 (length quiet_events) (served 2 0 quiet_events)))
unfolding NoneThrows
chat_server_ends_example = chat_server_ends 2 quiet_events events (omega arith) tt

abbrev redis_section : List (Bytes × Bytes)
redis_section = (codes "Host", codes "h") ∷ []

abbrev status_section : List (Bytes × Bytes)
status_section = (codes "Host", codes "a") ∷ (codes "Port", codes "1") ∷ []

abbrev ini : IniFile
ini = (codes "Redis", redis_section) ∷ (codes "StatusServer", status_section) ∷ []

config_index-make_config_test :
    ((config_index (codes "StatusServer") (codes "Port") (make_config ini)).0 ≡ codes "1")
    × ((config_index
          (codes "StatusServer")
          (codes "Port")
          (make_config ((codes "Redis", redis_section) ∷ (codes "StatusServer", []) ∷ []))).0
        ≡ [])
    × ((config_index (codes "StatusServer") (codes "Port") (make_config [])).0 ≡ [])
config_index-make_config_test =
    config_index-make_config (codes "StatusServer") (codes "Port") (codes "1")
      ((codes "Redis", redis_section) ∷ []) [] ((codes "Host", codes "a") ∷ []) [] tt tt

abbrev new_stub : Bytes → ℕ → ℕ
new_stub target n = length target + n

abbrev redis_host : List (Bytes × Bytes)
redis_host = (codes "Redis", codes "Host") ∷ []

make_client-server_address_test :
    (make_client new_stub
      (codes "StatusServer")
      (after_reads redis_host (make_config ini))).0.connections
    ≡ map (new_stub (server_address (after_reads [] (make_config ini))).0) (0 ∷ 1 ∷ 2 ∷ 3 ∷ 4 ∷ [])
make_client-server_address_test =
    make_client-server_address new_stub redis_host [] (make_config ini)

abbrev stopped_process : Process
stopped_process = record {
  cfg = make_config ini;
  redis = none;
  serving = none;
  waiting_for_signal = false;
}

-- A Redis that can be reached at every attempt, and a text that is no number.
abbrev reachable : Link
reachable = record { connect = λ n. some n; auth = λ c pwd. none; ping = λ c. none }

abbrev port_in_use : (Bytes → Option ℤ) → Surroundings
port_in_use int_of = record {
  binds = λ a. false;
  signal = true;
  throws = false;
  calls = 1;
  int_of = int_of;
  link = λ host port. reachable;
}

abbrev at_port : Surroundings
at_port = record (port_in_use (λ text. some (pos 6379))) { binds = λ a. true }

-- Clients that need a number of connections.
abbrev busy : ℕ → Surroundings
busy calls = record at_port { calls = calls }

no_port_aborts_example : (main (port_in_use (λ text. none)) stopped_process).0 ≡ crashed
no_port_aborts_example = no_port_aborts (port_in_use (λ text. none)) stopped_process refl refl refl

abbrev ports_ini : IniFile
ports_ini =
    (codes "GateServer", (codes "Port", codes "8080") ∷ [])
    ∷ (codes "SelfServer", (codes "Port", codes "8080") ∷ [])
    ∷ []

-- The connection that is opened first throws at its start.
mains_lem_example :
    (gate_main (λ port. true) 2 (opened true ∷ events) (make_config ports_ini) []
      ≡ (done 0, 8080 ∷ []))
    × (chat_main (λ port. true) 2 (opened true ∷ events) (make_config ports_ini) []
        ≡ (done 0, 8080 ∷ []))
unfolding make_config config_index lookup insert bytes_eq to_string
mains_lem_example =
    mains_lem 8080 (λ port. true) 2 (opened true ∷ events) (make_config ports_ini) (omega arith)
      (omega arith) refl refl
