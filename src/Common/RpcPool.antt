-- ===== src/Common/RpcPool.antt =====
-- servers/common/include/RPConPool.h. A method holds the mutex, so it is one step on the state;
-- `Close` does not, and changes the flag alone.
use quick_chat.Prelude.{
  ℕ, zero, suc, ◌+◌, ltb, length, Bool, true, false, List, [], ◌∷◌, ◌++◌, Option, none, some,
  if◌then◌else◌, Outcome, done, blocked,
}

-- A stub of the service is named by a number.
pub record RpConPool : Type 0 where
  pub b_stop : Bool
  pub pool_size : ℕ
  pub connections : List ℕ

-- The loop of the constructor: a stub for each round, from the n-th on.
unfoldable pub make_stubs : (ℕ → ℕ) → ℕ → ℕ → List ℕ
make_stubs new_stub n zero = []
make_stubs new_stub n (suc rounds) = new_stub n ∷ make_stubs new_stub (n + 1) rounds

-- `RPConPool::RPConPool`
unfoldable pub make_pool : (ℕ → ℕ) → ℕ → RpConPool
unfolding make_stubs
make_pool new_stub size = record {
  b_stop = false;
  pool_size = size;
  connections = make_stubs new_stub 0 size;
}

unfoldable pub take_front : RpConPool → List ℕ → Outcome (Option ℕ) × RpConPool
take_front p [] = (blocked, p)
take_front p (c ∷ cs) = (done (some c), record p { connections = cs })

-- The predicate of the wait in `getConnection`.
unfoldable pub ready : RpConPool → Bool
ready p = if p.b_stop then true else ltb 0 (length p.connections)

-- `getConnection`
unfoldable pub get_connection : RpConPool → Outcome (Option ℕ) × RpConPool
unfolding take_front
get_connection p = if p.b_stop then (done none, p) else take_front p p.connections

-- `returnConnection`. No caller has a null stub to give back: each calls the stub first.
unfoldable pub return_connection : RpConPool → ℕ → RpConPool
return_connection p c = if p.b_stop then p else record p { connections = p.connections ++ c ∷ [] }

-- `Close`
unfoldable pub close : RpConPool → RpConPool
close p = record p { b_stop = true }

-- `~RPConPool`
unfoldable pub destroy : RpConPool → RpConPool
unfolding close
destroy p = record (close p) { connections = [] }
