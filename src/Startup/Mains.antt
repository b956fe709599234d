-- ===== src/Startup/Mains.antt =====
-- servers/GateServer/src/main.cpp and servers/ChatServer/src/main.cpp: the port, the accept loop and
-- what `main` returns. `binds`: whether an acceptor can be opened on a port; it throws where it cannot.
-- `events`: the completions up to the signal that stops the loop. `size`: the number of services.
use quick_chat.Prelude.{
  ℕ, ◌^◌, ◌<◌, Bool, true, false, List, [], ◌∷◌, ◌++◌, Option, none, some, ◌≡◌, ◌⊎◌, inl, inr, refl,
  ap, ◌∙◌, codes, pos, Outcome, M, done, blocked, threw, crashed, if◌then◌else◌, Bool-cases,
}
use quick_chat.Common.Config.{ConfigMap, config_index}
use quick_chat.Common.Text.{to_string}
use quick_chat.Startup.Ports.{gate_port, chat_endpoint, ports_lem}
use quick_chat.Startup.Listen.{
  Event, refused, opened, NoneThrows, gate_server, chat_server, gate_server_lem, lost,
  chat_server_ends,
}

-- What `main` returns, by what becomes of the `try` block.
exit_code : ℕ → Outcome {0} Unit → Outcome {0} ℕ
exit_code failure (done u) = done 0
exit_code failure threw = done failure
exit_code failure blocked = blocked
exit_code failure crashed = crashed

-- The state of the two `main`s: the ports that an acceptor was asked for.
-- `main` of the gate, once the port is read.
gate_on : (ℕ → Bool) → ℕ → List Event → Option ℕ → M (List ℕ) Unit
gate_on binds size events none asked = (crashed, asked)
gate_on binds size events (some port) asked =
    (if binds port then (gate_server size events).0 else threw, asked ++ port ∷ [])

pub gate_main : (ℕ → Bool) → ℕ → List Event → ConfigMap → M (List ℕ) ℕ
unfolding exit_code gate_on
gate_main binds size events cfg asked =
    let r =
      gate_on binds size events (gate_port (config_index (codes "GateServer") (codes "Port") cfg).0)
        asked in
    (exit_code 1 r.0, r.1)

-- `main` of the chat server, once the port is read.
chat_on : (ℕ → Bool) → ℕ → List Event → Option ℕ → M (List ℕ) Unit
chat_on binds size events none asked = (crashed, asked)
chat_on binds size events (some port) asked =
    (if binds port then (chat_server size events).0 else threw, asked ++ port ∷ [])

pub chat_main : (ℕ → Bool) → ℕ → List Event → ConfigMap → M (List ℕ) ℕ
unfolding exit_code chat_on
chat_main binds size events cfg asked =
    let r =
      chat_on binds size events
        (chat_endpoint (config_index (codes "SelfServer") (codes "Port") cfg).0) asked in
    (exit_code 0 r.0, r.1)

-- The completions up to the first start that throws.
first_throw :
    (events : List Event)
    → NoneThrows events
      ⊎ ((before after : List Event) × NoneThrows before × (events ≡ before ++ opened true ∷ after))
unfolding NoneThrows
first_throw [] = inl tt
first_throw (opened true ∷ events) = inr ([], events, tt, refl)
first_throw (refused ∷ events) = elim (first_throw events) [
  | inl h ↦ inl h
  | inr (before, after, h, e) ↦ inr (refused ∷ before, after, h, ap (◌∷◌ refused) e)
]
first_throw (opened false ∷ events) = elim (first_throw events) [
  | inl h ↦ inl h
  | inr (before, after, h, e) ↦ inr (opened false ∷ before, after, h, ap (◌∷◌ (opened false)) e)
]

chat_exits :
    (size : ℕ) (events : List Event) → 0 < size → exit_code 0 (chat_server size events).0 ≡ done 0
unfolding exit_code
chat_exits size events h = elim (first_throw events) [
  | inl k ↦ ap (λ r. exit_code 0 r.0) (chat_server_ends size events [] h k).0
  | inr (before, after, k, e) ↦
      ap (λ es. exit_code 0 (chat_server size es).0) e
      ∙ ap (λ r. exit_code 0 r.0) (chat_server_ends size before after h k).1
      ∙ (unfold lost in refl)
]

-- With a configured port that is the print of a port, the `main` of both servers asks for an
-- acceptor on that port and on no other, and returns once a signal comes: that of the gate with 1 exactly when it cannot listen,
-- that of the chat server with 0 in any case, also when it cannot listen or when a start has thrown.
pub mains_lem :
    (n : ℕ) (binds : ℕ → Bool) (size : ℕ) (events : List Event) (cfg : ConfigMap)
    → n < 2 ^ 16
    → 0 < size
    → (config_index (codes "GateServer") (codes "Port") cfg).0 ≡ to_string (pos n)
    → (config_index (codes "SelfServer") (codes "Port") cfg).0 ≡ to_string (pos n)
    → (gate_main binds size events cfg [] ≡ (done (if binds n then 0 else 1), n ∷ []))
      × (chat_main binds size events cfg [] ≡ (done 0, n ∷ []))
unfolding gate_main chat_main gate_on chat_on exit_code
mains_lem n binds size events cfg small h gate chat =
    let (at_gate, at_chat, logged) = ports_lem n small in
    let gate_at = ap gate_port gate ∙ at_gate in
    let chat_at = ap chat_endpoint chat ∙ at_chat in
    elim (Bool-cases (binds n)) [
      | inl b ↦ (
        rw (gate_at, b, gate_server_lem size events h) refl,
        rw (chat_at, b) (ap (λ r. (r, n ∷ [])) (chat_exits size events h)),
      )
      | inr b ↦ (rw (gate_at, b) refl, rw (chat_at, b) refl)
    ]
