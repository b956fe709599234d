-- ===== src/Verify/Service/Stored.antt =====
-- What `GetVerifyCode` of servers/VerifyServer/verify_server.py leaves in Redis.
use quick_chat.Prelude.{
  ℕ, true, inl, inr, [], ◌∷◌, ◌++◌, none, some, ◌≡◌, ◌≢◌, refl, arith, Bytes, codes, pos, Option,
  Bool-cases,
}
use quick_chat.Common.Redis.Server.{Reply, RedisServer, reply_error}
use quick_chat.Common.Redis.RoundTrip.{string_reply}
use quick_chat.Verify.Service.{Service, GetVerifyRsp, returns, get_verify_code}

-- Redis's documentation of SETEX: where it does not answer with an error, GET of the same key then
-- answers the value, on whichever connections the two commands go out.
pub record KeepsCodes (srv : RedisServer) : Type 0 where
  pub get_after_setex :
      (c e : ℕ) (k t v : Bytes) (d : srv.Db) (r : Reply)
      → (srv.command c (codes "SETEX" ∷ k ∷ t ∷ v ∷ []) d).0 ≡ some r
      → r.kind ≢ reply_error
      → (srv.command e
          (codes "GET" ∷ k ∷ [])
          (srv.command c (codes "SETEX" ∷ k ∷ t ∷ v ∷ []) d).1).0
        ≡ some (string_reply v)

returns-reply :
    (r : Option Reply)
    → returns r ≡ true
    → (reply : Reply) × (r ≡ some reply) × (reply.kind ≢ reply_error)
unfolding returns
returns-reply none h = absurd (ground arith)
returns-reply (some reply) h = (reply, refl, λ e. ground arith)

module _ (srv : RedisServer) (keeps : KeepsCodes srv) where
  -- A call whose status is ok has answered with the code and no error, and a GET of the key with
  -- the service's prefix then answers the code.
  pub code_stored :
      (c e : ℕ) (code email : Bytes) (before after : Service srv) (rsp : GetVerifyRsp)
      → get_verify_code srv c code email before ≡ ((true, rsp), after)
      → (rsp ≡ record { error = pos 0; email = email; code = code })
        × ((srv.command e (codes "GET" ∷ (before.prefix ++ email) ∷ []) after.db).0
            ≡ some (string_reply code))
  unfolding get_verify_code
  code_stored c e code email before after rsp h =
      let key : Bytes = before.prefix ++ email in
      let sent = srv.command c (codes "SETEX" ∷ key ∷ codes "300" ∷ code ∷ []) before.db in
      elim (Bool-cases (returns sent.0)) [
        | inl t ↦
            let (reply, answered, ok) = returns-reply sent.0 t in
            let found =
              keeps.get_after_setex c e key (codes "300") code before.db reply answered ok in
            (ground arith, ground (arith, found))
        | inr f ↦ absurd (ground arith)
      ]
