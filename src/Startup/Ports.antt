-- ===== src/Startup/Ports.antt =====
-- The port that a server listens on: `atoi` of the configured text, then the conversions to
-- `unsigned short` in servers/GateServer/src/main.cpp, and to `short` and back in
-- servers/ChatServer/src/main.cpp and servers/ChatServer/src/CServer.cpp.
use quick_chat.Prelude.{
  ℕ, ◌-◌, ◌%◌, ◌^◌, ◌<◌, ltb, Option, none, some, ◌≡◌, refl, ap, ◌∙◌, arith, Bytes, ℤ, pos, negsuc,
  if◌then◌else◌,
}
use native.Mathlib.Nat.{mod-lt, mod-eq_of_lt}
use quick_chat.Common.Text.{to_string}
use quick_chat.Common.Text.Atoi.{atoi, atoi-decimal}

-- The conversion to `unsigned short`.
to_unsigned_short : ℤ → ℕ
to_unsigned_short (pos n) = n % 2 ^ 16
to_unsigned_short (negsuc n) = 2 ^ 16 - 1 - n % 2 ^ 16

signed_short : ℕ → ℤ
signed_short n = if ltb n (2 ^ 15) then pos n else negsuc (2 ^ 16 - 1 - n)

-- The conversion to `short`.
pub to_short : ℤ → ℤ
unfolding signed_short to_unsigned_short
to_short z = signed_short (to_unsigned_short z)

abbrev then_port {ℓ} : {A B : Type ℓ} → (A → B) → Option A → Option B
then_port f none = none
then_port f (some a) = some (f a)

-- The gate: `gate_port`, which is also the port of the endpoint.
pub gate_port : Bytes → Option ℕ
unfolding to_unsigned_short
gate_port text = then_port to_unsigned_short (atoi text)

-- The chat server: `port_`, which the log names.
pub chat_port : Bytes → Option ℤ
unfolding to_short
chat_port text = then_port to_short (atoi text)

-- The chat server: the port of the endpoint, which is an `unsigned short`.
pub chat_endpoint : Bytes → Option ℕ
unfolding chat_port to_unsigned_short
chat_endpoint text = then_port to_unsigned_short (chat_port text)

short_range : (z : ℤ) → to_unsigned_short z < 2 ^ 16
unfolding to_unsigned_short
short_range (pos n) = mod-lt n (omega arith)
short_range (negsuc n) = omega arith

to_unsigned_short-signed_short : (n : ℕ) → n < 2 ^ 16 → to_unsigned_short (signed_short n) ≡ n
unfolding to_unsigned_short signed_short
to_unsigned_short-signed_short n h = ground arith

ports_agree :
    (r : Option ℤ)
    → then_port to_unsigned_short (then_port to_short r) ≡ then_port to_unsigned_short r
unfolding to_short
ports_agree none = refl
ports_agree (some z) =
    ap some (to_unsigned_short-signed_short (to_unsigned_short z) (short_range z))

-- A text means the same port to both servers: that the chat server takes its port through a
-- `short` changes nothing, whatever the text, negative numbers and numbers that no port has
-- included.
chat_endpoint-gate_port : (text : Bytes) → chat_endpoint text ≡ gate_port text
unfolding chat_endpoint chat_port gate_port
chat_endpoint-gate_port text = ports_agree (atoi text)

-- A port in decimal digits is the port that both servers listen on; the chat server logs it as a
-- negative number from 32768 on.
pub ports_lem :
    (n : ℕ)
    → n < 2 ^ 16
    → (gate_port (to_string (pos n)) ≡ some n)
      × (chat_endpoint (to_string (pos n)) ≡ some n)
      × (chat_port (to_string (pos n))
          ≡ some (if ltb n (2 ^ 15) then pos n else negsuc (2 ^ 16 - 1 - n)))
unfolding gate_port chat_port to_unsigned_short to_short signed_short
ports_lem n h =
    let read = atoi-decimal n h in
    let small : n % 2 ^ 16 ≡ n = mod-eq_of_lt h in
    let gate : gate_port (to_string (pos n)) ≡ some n = rw read (ap some small) in
    (
      gate,
      chat_endpoint-gate_port (to_string (pos n)) ∙ gate,
      rw read (ap (λ m. some (if ltb m (2 ^ 15) then pos m else negsuc (2 ^ 16 - 1 - m))) small),
    )
