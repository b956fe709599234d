-- ===== src/Status/Service/Isolation.antt =====
-- The tokens of different users do not meet.
use quick_chat.Prelude.{ℕ, false, List, [], ◌∷◌, ◌≡◌, ◌≢◌, ap, arith, Bytes, codes, drop, ℤ}
use quick_chat.Common.Redis.Server.{RedisServer, c_str}
use quick_chat.Common.Redis.Pool.{get_connection}
use quick_chat.Common.Redis.Commands.{get, set, with_reply}
use quick_chat.Common.Redis.RoundTrip.{c_str-Lacks}
use quick_chat.Common.Text.RoundTrip.{IsInt, to_string-injective}
use quick_chat.Status.Service.Login.{token_key-Lacks}
use quick_chat.Status.Service.{Service, token_key, insert_token, login, with_redis}

module _ (srv : RedisServer) where
  token_key-injective : (a b : ℤ) → IsInt a → IsInt b → token_key srv a ≡ token_key srv b → a ≡ b
  unfolding token_key
  token_key-injective a b ha hb e = to_string-injective a b ha hb (ap (drop 7) e)

  -- Redis's documentation of SET and GET again: SET of one key leaves every other key as it was, on
  -- whichever connections the commands go out.
  pub record KeepsOthers : Type 0 where
    get_other :
        (c e e' : ℕ) (k k' v : Bytes) (d : srv.Db)
        → k ≢ k'
        → (srv.command e' (codes "GET" ∷ k' ∷ []) (srv.command c (codes "SET" ∷ k ∷ v ∷ []) d).1).0
          ≡ (srv.command e (codes "GET" ∷ k' ∷ []) d).0

  -- A token that is stored for one user changes nothing for another: whatever token the other user
  -- logs in with, the answer of `Login` is the same before and after, over a server that keeps
  -- other keys as Redis documents it and on a running pool that holds two connections.
  insert_token_isolated :
      KeepsOthers
      → (uid uid' : ℤ) (token token' : Bytes) (s : Service srv) (c d : ℕ) (cs : List ℕ) → IsInt uid
      → IsInt uid'
      → uid ≢ uid'
      → s.redis.con_pool.b_stop ≡ false
      → s.redis.con_pool.connections ≡ c ∷ d ∷ cs
      → (login srv uid' token' (insert_token srv uid token s).1).0 ≡ (login srv uid' token' s).0
  unfolding login insert_token with_redis get set with_reply get_connection
  insert_token_isolated keeps uid uid' token token' s c d cs hu hu' ne running held =
      let key_same = c_str-Lacks (token_key srv uid) (token_key-Lacks srv uid) in
      let other_same = c_str-Lacks (token_key srv uid') (token_key-Lacks srv uid') in
      let apart : token_key srv uid ≢ token_key srv uid' =
        λ e. ne (token_key-injective uid uid' hu hu' e) in
      ground (
        arith,
        key_same,
        other_same,
        keeps.get_other c c d (token_key srv uid) (token_key srv uid') (c_str token) s.redis.db
            apart,
      )
