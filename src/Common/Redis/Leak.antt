-- ===== src/Common/Redis/Leak.antt =====
-- The connections that the commands of servers/common/src/RedisMgr.cpp use.
use quick_chat.Prelude.{
  ℕ, ◌+◌, true, false, List, [], ◌∷◌, Option, ◌≡◌, refl, sym, ap, ◌∙◌, inl, inr, List-cases, Bytes,
  arith, length, Outcome, done, blocked, threw, crashed, M, and_then,
}
use quick_chat.Common.Redis.Server.{RedisServer, Reply}
use quick_chat.Common.Redis.Pool.{get_connection}
use quick_chat.Common.Redis.Commands.{
  RedisMgr, with_reply, get, set, auth, lpush, lpop, rpush, rpop, hset, hset_bytes, hget, del,
  exists_key,
}

-- The calls of `RedisMgr` that send a command.
pub data Call : Type 0 where
  get_call set_call lpush_call lpop_call rpush_call rpop_call hget_call : Bytes → Bytes → Call
  auth_call del_call exists_call : Bytes → Call
  hset_call : Bytes → Bytes → Bytes → Call
  hset_bytes_call : Bytes → Bytes → Bytes → ℕ → Call

module _ (srv : RedisServer) where
  abbrev pub connections : RedisMgr srv → List ℕ
  connections s = s.con_pool.connections

  ignore : {A : Type 0} → M (RedisMgr srv) A → M (RedisMgr srv) (Unit {0})
  ignore m s = and_then (m s) (λ _ s'. (done tt, s'))

  unfoldable pub exec : Call → M (RedisMgr srv) (Unit {0})
  unfolding ignore
  exec (get_call k v) = ignore (get srv k v)
  exec (set_call k v) = ignore (set srv k v)
  exec (lpush_call k v) = ignore (lpush srv k v)
  exec (lpop_call k v) = ignore (lpop srv k v)
  exec (rpush_call k v) = ignore (rpush srv k v)
  exec (rpop_call k v) = ignore (rpop srv k v)
  exec (hget_call k v) = ignore (hget srv k v)
  exec (auth_call k) = ignore (auth srv k)
  exec (del_call k) = ignore (del srv k)
  exec (exists_call k) = ignore (exists_key srv k)
  exec (hset_call k h v) = ignore (hset srv k h v)
  exec (hset_bytes_call k h v n) = ignore (hset_bytes srv k h v n)

  module _ {A : Type 0} (failed : A) (words : List Bytes)
      (use_reply : Option Reply → Outcome A) where
    frame_takes :
        (s : RedisMgr srv) (c : ℕ) (cs : List ℕ)
        → s.con_pool.b_stop ≡ false
        → connections s ≡ c ∷ cs
        → let t = (ignore (with_reply srv failed words use_reply) s).1 in
          (connections t ≡ cs) × (t.con_pool.b_stop ≡ false)
    unfolding ignore with_reply get_connection
    frame_takes s c cs h e = ground arith

    frame_blocks :
        (s : RedisMgr srv)
        → s.con_pool.b_stop ≡ false
        → connections s ≡ []
        → (ignore (with_reply srv failed words use_reply) s).0 ≡ blocked
    unfolding ignore with_reply get_connection
    frame_blocks s h e = ground arith

    frame_stopped :
        (s : RedisMgr srv)
        → s.con_pool.b_stop ≡ true
        → with_reply srv failed words use_reply s ≡ (done failed, s)
    unfolding with_reply get_connection
    frame_stopped s h = ground arith

  -- What holds of the frame holds of every call.
  exec_cases :
      (P : M (RedisMgr srv) (Unit {0}) → Type 0)
      → ((A : Type 0) (failed : A) (words : List Bytes) (use_reply : Option Reply → Outcome A)
          → P (ignore (with_reply srv failed words use_reply)))
      → (call : Call) → P (exec call)
  unfolding exec get set auth lpush lpop rpush rpop hset hset_bytes hget del exists_key
  exec_cases P frame (get_call k v) = frame _ _ _ _
  exec_cases P frame (set_call k v) = frame _ _ _ _
  exec_cases P frame (lpush_call k v) = frame _ _ _ _
  exec_cases P frame (lpop_call k v) = frame _ _ _ _
  exec_cases P frame (rpush_call k v) = frame _ _ _ _
  exec_cases P frame (rpop_call k v) = frame _ _ _ _
  exec_cases P frame (hget_call k v) = frame _ _ _ _
  exec_cases P frame (auth_call k) = frame _ _ _ _
  exec_cases P frame (del_call k) = frame _ _ _ _
  exec_cases P frame (exists_call k) = frame _ _ _ _
  exec_cases P frame (hset_call k h v) = frame _ _ _ _
  exec_cases P frame (hset_bytes_call k h v n) = frame _ _ _ _

  exec-takes :
      (call : Call) (s : RedisMgr srv) (c : ℕ) (cs : List ℕ)
      → s.con_pool.b_stop ≡ false
      → connections s ≡ c ∷ cs
      → (connections (exec call s).1 ≡ cs) × ((exec call s).1.con_pool.b_stop ≡ false)
  exec-takes call s c cs h e =
      exec_cases (λ m. (connections (m s).1 ≡ cs) × ((m s).1.con_pool.b_stop ≡ false))
        (λ A failed words use_reply. frame_takes failed words use_reply s c cs h e) call

  -- With no connection left, and the pool not stopped, every call blocks.
  exec-blocked :
      (call : Call) (s : RedisMgr srv)
      → s.con_pool.b_stop ≡ false
      → connections s ≡ []
      → (exec call s).0 ≡ blocked
  exec-blocked call s h e =
      exec_cases (λ m. (m s).0 ≡ blocked)
        (λ A failed words use_reply. frame_blocks failed words use_reply s h e) call

  -- One call after another, as long as they return.
  unfoldable pub exec_all : List Call → M (RedisMgr srv) (Unit {0})
  exec_all [] s = (done tt, s)
  exec_all (call ∷ calls) s = and_then (exec call s) (λ _. exec_all calls)

  done-ne-blocked : {r : Outcome (Unit {0})} → r ≡ done tt → r ≡ blocked → ⊥
  done-ne-blocked h k = cc

  and_then-done :
      (r : Outcome (Unit {0}) × RedisMgr srv) (k : M (RedisMgr srv) (Unit {0}))
      → (and_then r (λ _. k)).0 ≡ done tt
      → and_then r (λ _. k) ≡ k r.1
  and_then-done (done tt, s) k h = refl
  and_then-done (blocked, s) k h = cc
  and_then-done (threw, s) k h = cc
  and_then-done (crashed, s) k h = cc

  blocked_and_then :
      (r : Outcome (Unit {0}) × RedisMgr srv) (k : M (RedisMgr srv) (Unit {0}))
      → r.0 ≡ blocked
      → (and_then r (λ _. k)).0 ≡ blocked
  blocked_and_then (done x, s) k h = cc
  blocked_and_then (blocked, s) k h = refl
  blocked_and_then (threw, s) k h = cc
  blocked_and_then (crashed, s) k h = cc

  -- On a pool that is not stopped, calls of the commands that all return have each taken one
  -- connection out of it: the ones left and the calls together are as many as the connections at
  -- the start. So the pool serves no more calls than it held connections.
  pub exec_all-takes :
      (calls : List Call) (s : RedisMgr srv)
      → s.con_pool.b_stop ≡ false
      → (exec_all calls s).0 ≡ done tt
      → length (connections (exec_all calls s).1) + length calls ≡ length (connections s)
  unfolding exec_all
  exec_all-takes [] s h d = omega arith
  exec_all-takes (call ∷ calls) s h d = elim (List-cases (connections s)) [
    | inl e ↦ absurd (
        done-ne-blocked d
          (blocked_and_then (exec call s) (exec_all calls) (exec-blocked call s h e)))
    | inr (c, cs, e) ↦
        let rest : RedisMgr srv = (exec call s).1 in
        let same = and_then-done (exec call s) (exec_all calls) d in
        let (left, going) = exec-takes call s c cs h e in
        let ih =
          exec_all-takes calls rest going
            (sym (ap (λ (r : Outcome (Unit {0}) × RedisMgr srv). r.0) same) ∙ d) in
        omega (
          arith,
          ih,
          ap (λ (r : Outcome (Unit {0}) × RedisMgr srv). length (connections r.1)) same,
          ap length left,
          ap length e,
        )
  ]
