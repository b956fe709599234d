-- ===== src/Status/Service/Login.antt =====
-- The tokens of the status server.
use quick_chat.Prelude.{
  ℕ, Bool, true, false, List, [], ◌∷◌, ◌≡◌, refl, ap, ◌∙◌, arith, Bytes, bytes_eq_iff, ℤ, pos,
  Lacks, All-append, Outcome, done, blocked, threw, crashed, and_then, and_then-done,
  and_then_of_done, sym,
}
use quick_chat.Common.ErrorCodes.{success, uid_invalid, user_token_prefix}
use quick_chat.Common.Text.RoundTrip.{to_string-Lacks}
use quick_chat.Common.Redis.Server.{RedisServer}
use quick_chat.Common.Redis.Commands.{RedisMgr, get, with_reply, read_get}
use quick_chat.Common.Redis.Pool.{get_connection}
use quick_chat.Common.Redis.RoundTrip.{KeepsStrings, set_then_get, set_took}
use quick_chat.Status.Service.{
  Service, LoginRsp, GetChatServerRsp, pick_server, get_chat_server, with_redis, token_key,
  insert_token, login_answer, login,
}

module _ (srv : RedisServer) where
  -- No key of a token holds a zero byte.
  pub token_key-Lacks : (uid : ℤ) → Lacks 0 (token_key srv uid)
  unfolding token_key
  token_key-Lacks uid = All-append _ user_token_prefix _ (omega arith) (to_string-Lacks uid)

  -- `Get` keeps the caller's value where it finds none.
  get_miss :
      (key old v : Bytes) (m : RedisMgr srv) → (get srv key old m).0 ≡ done (false, v) → v ≡ old
  unfolding get with_reply get_connection read_get
  get_miss key old v m h = ground arith

  answer_accepts :
      (uid : ℤ) (token : Bytes) (got : Bool × Bytes)
      → (login_answer srv uid token got).error ≡ success
      → got ≡ (false, token)
  unfolding login_answer
  answer_accepts uid token (true, v) e = absurd (ground arith)
  answer_accepts uid token (false, v) e = ground (arith, bytes_eq_iff v token)

  -- The only token that `Login` ever accepts is the empty one, and it accepts it only for a user
  -- with no token in Redis.
  pub login_accepts :
      (uid : ℤ) (token : Bytes) (s : Service srv) (rsp : LoginRsp)
      → (login srv uid token s).0 ≡ done rsp
      → rsp.error ≡ success
      → (token ≡ []) × ((get srv (token_key srv uid) [] s.redis).0 ≡ done (false, []))
  unfolding login with_redis login_answer
  login_accepts uid token s rsp h e = answered (get srv (token_key srv uid) [] s.redis).0 refl
    where
      answered :
          (r : Outcome (Bool × Bytes))
          → (get srv (token_key srv uid) [] s.redis).0 ≡ r
          → (token ≡ []) × ((get srv (token_key srv uid) [] s.redis).0 ≡ done (false, []))
      answered (done got) k =
          let same : got ≡ (false, token) = answer_accepts uid token got (ground arith) in
          let miss : (get srv (token_key srv uid) [] s.redis).0 ≡ done (false, token) =
            k ∙ ap done same in
          let empty = get_miss (token_key srv uid) [] token s.redis miss in
          (empty, miss ∙ ap (λ t. done (false, t)) empty)
      answered blocked k = absurd (ground arith)
      answered threw k = absurd (ground arith)
      answered crashed k = absurd (ground arith)

module _ (srv : RedisServer) (keeps : KeepsStrings srv) where
  -- A user who logs in with the token that `GetChatServer` has stored for him is refused, with the
  -- code for an invalid uid: over a server that keeps strings as Redis documents it, with two
  -- connections in the pool, and for keys and tokens without a zero byte.
  login_refuses_stored_token :
      (uid : ℤ) (token : Bytes) (s : Service srv) (c d : ℕ) (cs : List ℕ)
      → Lacks 0 (token_key srv uid)
      → Lacks 0 token
      → s.redis.con_pool.b_stop ≡ false
      → s.redis.con_pool.connections ≡ c ∷ d ∷ cs
      → (and_then (insert_token srv uid token s) (λ _. login srv uid token)).0
        ≡ done (record { error = uid_invalid; uid = pos 0; token = [] })
  unfolding insert_token login with_redis login_answer
  login_refuses_stored_token uid token s c d cs hk ht running held =
      ground (
        arith,
        set_then_get srv keeps (token_key srv uid) token [] s.redis c d cs hk ht running held,
      )

  -- What a call of `GetChatServer` that returns has done: it has picked a server, stored the token,
  -- and answered with both.
  get_chat_server_steps :
      (uid : ℤ) (uuid : Bytes) (s : Service srv) (rsp : GetChatServerRsp)
      → (get_chat_server srv uid uuid s).0 ≡ done rsp
      → (mid : Service srv) × (stored : Bool) × ((insert_token srv uid uuid mid).0 ≡ done stored)
        × ((get_chat_server srv uid uuid s).1 ≡ (insert_token srv uid uuid mid).1)
        × (rsp.token ≡ uuid)
        × (rsp.error ≡ success)
  unfolding get_chat_server
  get_chat_server_steps uid uuid s rsp h =
      let (m, picked, e) = and_then-done (pick_server srv s) _ h in
      let (stored, kept, f) =
        and_then-done (insert_token srv uid uuid (pick_server srv s).1) _
          (sym (ap (λ r. r.0) e) ∙ h) in
      let answer = sym h ∙ ap (λ r. r.0) (e ∙ f) in
      (
        (pick_server srv s).1,
        stored,
        kept,
        ap (λ r. r.1) (e ∙ f),
        unfold insert_token in ground (arith, answer),
        unfold insert_token in ground (arith, answer),
      )

  -- `GetChatServer`, if it returns, answers with success and the fresh token; and the user who then
  -- logs in with this token is refused with the code for an invalid uid: over a server that keeps strings as Redis
  -- documents it, with a running pool that still holds a connection, and for a token without a
  -- zero byte.
  pub login-get_chat_server :
      (uid : ℤ) (uuid : Bytes) (s s' : Service srv) (rsp : GetChatServerRsp) (d : ℕ) (ds : List ℕ)
      → Lacks 0 uuid
      → get_chat_server srv uid uuid s ≡ (done rsp, s')
      → s'.redis.con_pool.b_stop ≡ false
      → s'.redis.con_pool.connections ≡ d ∷ ds
      → (rsp.error ≡ success)
        × (rsp.token ≡ uuid)
        × ((login srv uid rsp.token s').0
            ≡ done (record { error = uid_invalid; uid = pos 0; token = [] }))
  login-get_chat_server uid uuid s s' rsp d ds ht h running held =
      let (mid, stored, kept, left, token, ok) =
        get_chat_server_steps uid uuid s rsp (ap (λ r. r.0) h) in
      let after : s' ≡ (insert_token srv uid uuid mid).1 = sym (ap (λ r. r.1) h) ∙ left in
      let (running', (c, front)) =
        set_took srv (token_key srv uid) uuid mid.redis stored (unfold insert_token in kept) (
          unfold insert_token in
          ap (λ (r : Service srv). r.redis.con_pool.b_stop) (sym after) ∙ running) in
      let first : mid.redis.con_pool.connections ≡ c ∷ d ∷ ds =
        front
        ∙ ap (◌∷◌ c) (
            unfold insert_token in
            ap (λ (r : Service srv). r.redis.con_pool.connections) (sym after) ∙ held) in
      let refused =
        login_refuses_stored_token uid uuid mid c d ds (token_key-Lacks srv uid) ht running'
          first in
      let next = and_then_of_done (insert_token srv uid uuid mid) (λ _. login srv uid uuid) kept in
      (
        ok,
        token,
        ap (λ t. (login srv uid t s').0) token
            ∙ ap (λ t. (login srv uid uuid t).0) after
            ∙ ap (λ r. r.0) (sym next)
            ∙ refused,
      )
