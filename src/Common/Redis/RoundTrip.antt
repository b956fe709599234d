-- ===== src/Common/Redis/RoundTrip.antt =====
-- `Set` and then `Get`, over a server that keeps strings as Redis documents it.
use quick_chat.Prelude.{
  ℕ, Bool, true, false, inl, inr, Bool-cases, List-cases, List, [], ◌∷◌, Option, some, ◌≡◌, refl,
  Bytes, codes, bytes_eq, Lacks, ℤ, pos, arith, done, and_then,
}
use quick_chat.Common.Redis.Server.{RedisServer, Reply, c_str, reply_string, reply_status}
use quick_chat.Common.Redis.Pool.{get_connection}
use quick_chat.Common.Redis.Commands.{RedisMgr, with_reply, get, set, read_get, read_set}

abbrev pub ok_reply : Reply
ok_reply = record { kind = reply_status; str = some (codes "OK"); integer = pos 0 }

abbrev pub string_reply : Bytes → Reply
string_reply v = record { kind = reply_string; str = some v; integer = pos 0 }

-- Redis's documentation of SET and GET: SET answers OK, and GET of the same key then answers the
-- value, on whichever connections the two commands go out.
pub record KeepsStrings (srv : RedisServer) : Type 0 where
  pub set_answers_ok :
      (c : ℕ) (k v : Bytes) (d : srv.Db)
      → (srv.command c (codes "SET" ∷ k ∷ v ∷ []) d).0 ≡ some ok_reply
  pub get_after_set :
      (c e : ℕ) (k v : Bytes) (d : srv.Db)
      → (srv.command e (codes "GET" ∷ k ∷ []) (srv.command c (codes "SET" ∷ k ∷ v ∷ []) d).1).0
        ≡ some (string_reply v)

pub c_str-Lacks : (s : Bytes) → Lacks 0 s → c_str s ≡ s
unfolding c_str
c_str-Lacks [] h = refl
c_str-Lacks (c ∷ s) h = ground (arith, c_str-Lacks s h.1)

-- What `Set` returns hangs on the text of the reply alone: whatever the type of the reply, the
-- result is true exactly when the text is "OK" or "ok".
read_set_ignores_kind :
    (kind kind' : ℕ) (str : Option Bytes) (integer integer' : ℤ)
    → read_set (some (record { kind = kind; str = str; integer = integer }))
      ≡ read_set (some (record { kind = kind'; str = str; integer = integer' }))
unfolding read_set
read_set_ignores_kind kind kind' str integer integer' = refl

module _ (srv : RedisServer) (keeps : KeepsStrings srv) where
  -- `Get` after `Set` of the same key gives the value back: over a server that keeps strings as
  -- Redis documents it, on a running pool that holds two connections, and for a key and a value
  -- without a zero byte.
  pub set_then_get :
      (k v old : Bytes) (s : RedisMgr srv) (c e : ℕ) (cs : List ℕ)
      → Lacks 0 k
      → Lacks 0 v
      → s.con_pool.b_stop ≡ false
      → s.con_pool.connections ≡ c ∷ e ∷ cs
      → (and_then (set srv k v s) (λ stored. get srv k old)).0 ≡ done (true, v)
  unfolding set get with_reply get_connection read_set read_get bytes_eq
  set_then_get k v old s c e cs hk hv h p = ground (
    arith,
    c_str-Lacks k hk,
    c_str-Lacks v hv,
    keeps.set_answers_ok c k v s.db,
    keeps.get_after_set c e k v s.db,
  )

module _ (srv : RedisServer) where
  -- A `Set` that returns on a pool that is then still running has taken the connection at the
  -- front.
  pub set_took :
      (k v : Bytes) (s : RedisMgr srv) (stored : Bool)
      → (set srv k v s).0 ≡ done stored
      → (set srv k v s).1.con_pool.b_stop ≡ false
      → (s.con_pool.b_stop ≡ false)
        × ((c : ℕ) × (s.con_pool.connections ≡ c ∷ (set srv k v s).1.con_pool.connections))
  unfolding set with_reply get_connection
  set_took k v s stored h r = elim (Bool-cases s.con_pool.b_stop) [
    | inl e ↦ absurd (ground arith)
    | inr e ↦ elim (List-cases s.con_pool.connections) [
      | inl f ↦ absurd (ground arith)
      | inr (c, cs, f) ↦ (e, (c, ground arith))
    ]
  ]
