-- ===== src/Common/Waiting.antt =====
-- The condition variable of the three pools: servers/common/src/RedisMgr.cpp, MysqlDao.cpp beside
-- it and servers/common/include/RPConPool.h. Any number of threads call `getConnection` and
-- `returnConnection`, one calls `Close`; a step is what a thread does without letting go of the
-- mutex, and `Close` does not take it. A thread that does not give its
-- connection back stays a `user`.
pub mod Counts
pub mod Conserve
pub mod Notify
pub mod Close
pub mod Kept
pub mod Pools
pub mod Closing
use quick_chat.Prelude.{
  ℕ, ◌+◌, Bool, true, false, List, [], ◌∷◌, ◌++◌, Option, none, some, ◌≡◌, ◌↔◌, ◌⊎◌, map, length,
  ◌≤◌, Outcome, done, blocked,
}

-- What the threads do to a pool.
pub record PoolOps : Type 1 where
  pub Pool : Type 0
  pub Conn : Type 0
  pub idle : Pool → List Conn
  pub stopped : Pool → Bool
  -- the predicate of the wait
  pub ready : Pool → Bool
  pub get : Pool → Outcome (Option Conn) × Pool
  pub give : Pool → Conn → Pool
  pub shut : Pool → Pool
  -- a round of the keep-alive thread, which holds the mutex, and what it leaves
  pub Kept : Pool → Pool → Type 0

-- What a pool owes to its users. None of it says what becomes of the waiting threads.
pub record Laws (ops : PoolOps) : Type 0 where
  pub ready_blocked : (p : ops.Pool) → (ops.ready p ≡ false) ↔ ((ops.get p).0 ≡ blocked)
  pub empty_waits : (p : ops.Pool) → ops.stopped p ≡ false → ops.idle p ≡ [] → ops.ready p ≡ false
  pub full_ready :
      (p : ops.Pool) (c : ops.Conn) (cs : List ops.Conn)
      → ops.stopped p ≡ false
      → ops.idle p ≡ c ∷ cs
      → (ops.ready p ≡ true) × ((ops.get p).0 ≡ done (some c)) × (ops.idle (ops.get p).1 ≡ cs)
  pub give_idle :
      (p : ops.Pool) (c : ops.Conn)
      → ops.stopped p ≡ false
      → ops.idle (ops.give p c) ≡ ops.idle p ++ c ∷ []
  pub get_stopped : (p : ops.Pool) → ops.stopped (ops.get p).1 ≡ ops.stopped p
  pub give_stopped : (p : ops.Pool) (c : ops.Conn) → ops.stopped (ops.give p c) ≡ ops.stopped p
  pub shut_stopped : (p : ops.Pool) → ops.stopped (ops.shut p) ≡ true
  pub kept_stopped : (p q : ops.Pool) → ops.Kept p q → ops.stopped q ≡ ops.stopped p
  pub kept_fewer : (p q : ops.Pool) → ops.Kept p q → length (ops.idle q) ≤ length (ops.idle p)

-- `checked`: it holds the mutex, and has found the predicate false. `woken`: its wait is over, and
-- it is about to take the mutex and look again. `refused`: it was given a null pointer.
pub data Thread (C : Type 0) : Type 0 where
  outside checked asleep woken refused : Thread C
  user : C → Thread C

-- How far the call of `Close` is: its flag comes before its notification.
pub data Closer : Type 0 where
  not_called flag_set returned : Closer

abbrev pub wake : {C : Type 0} → Thread C → Thread C
wake asleep = woken
wake outside = outside
wake checked = checked
wake woken = woken
wake refused = refused
wake (user c) = user c

abbrev pub sleeper : {C : Type 0} → Thread C → ℕ
sleeper asleep = 1
sleeper outside = 0
sleeper checked = 0
sleeper woken = 0
sleeper refused = 0
sleeper (user c) = 0

-- The threads, each with a weight.
unfoldable pub total {ℓ} : {T : Type ℓ} → (T → ℕ) → List T → ℕ
total w [] = 0
total w (t ∷ ts) = w t + total w ts

-- `notify_one` wakes one of the sleeping threads, whichever, if there is one.
pub data Notified {C : Type 0} (ts : List (Thread C)) : List (Thread C) → Type 0 where
  nobody : total sleeper ts ≡ 0 → Notified ts ts
  one : (xs ys : List (Thread C)) → ts ≡ xs ++ asleep ∷ ys → Notified ts (xs ++ woken ∷ ys)

-- About to take the mutex and look at the predicate.
abbrev pub Looks : {C : Type 0} → Thread C → Type 0
Looks p = (p ≡ outside) ⊎ (p ≡ woken)

module _ (ops : PoolOps) where
  pub record System : Type 0 where
    pub pool : ops.Pool
    pub locked : Bool
    pub closer : Closer
    pub threads : List (Thread ops.Conn)

  pub data Step (s : System) : System → Type 0 where
    -- The end of `getConnection`, with a connection or with null.
    takes :
        (xs ys : List (Thread ops.Conn)) (p : Thread ops.Conn) (c : ops.Conn)
        → Looks p
        → s.threads ≡ xs ++ p ∷ ys
        → s.locked ≡ false
        → ops.ready s.pool ≡ true
        → (ops.get s.pool).0 ≡ done (some c)
        → Step s (record s { pool = (ops.get s.pool).1; threads = xs ++ user c ∷ ys })
    gives_up :
        (xs ys : List (Thread ops.Conn)) (p : Thread ops.Conn)
        → Looks p
        → s.threads ≡ xs ++ p ∷ ys
        → s.locked ≡ false
        → ops.ready s.pool ≡ true
        → (ops.get s.pool).0 ≡ done none
        → Step s (record s { pool = (ops.get s.pool).1; threads = xs ++ refused ∷ ys })
    -- The two halves of a wait: the predicate is false, and then the thread sleeps and lets go of
    -- the mutex at once.
    checks :
        (xs ys : List (Thread ops.Conn)) (p : Thread ops.Conn)
        → Looks p
        → s.threads ≡ xs ++ p ∷ ys
        → s.locked ≡ false
        → ops.ready s.pool ≡ false
        → Step s (record s { locked = true; threads = xs ++ checked ∷ ys })
    sleeps :
        (xs ys : List (Thread ops.Conn))
        → s.threads ≡ xs ++ checked ∷ ys
        → Step s (record s { locked = false; threads = xs ++ asleep ∷ ys })
    -- `returnConnection`, which notifies only if the pool is not stopped.
    returns :
        (xs ys us : List (Thread ops.Conn)) (c : ops.Conn)
        → s.threads ≡ xs ++ user c ∷ ys
        → s.locked ≡ false
        → ops.stopped s.pool ≡ false
        → Notified (xs ++ outside ∷ ys) us
        → Step s (record s { pool = ops.give s.pool c; threads = us })
    returns_late :
        (xs ys : List (Thread ops.Conn)) (c : ops.Conn)
        → s.threads ≡ xs ++ user c ∷ ys
        → s.locked ≡ false
        → ops.stopped s.pool ≡ true
        → Step s (record s { pool = ops.give s.pool c; threads = xs ++ outside ∷ ys })
    -- A wait may end with no notification.
    spurious :
        (xs ys : List (Thread ops.Conn))
        → s.threads ≡ xs ++ asleep ∷ ys
        → Step s (record s { threads = xs ++ woken ∷ ys })
    -- A round of the keep-alive thread.
    keeps : (q : ops.Pool) → s.locked ≡ false → ops.Kept s.pool q → Step s (record s { pool = q })
    -- The two halves of `Close`, in which the mutex is not taken. With `shuts_over`, a thread in
    -- `getConnection` has found the predicate true before the flag, and looks at the flag after it.
    shuts_over :
        (xs ys : List (Thread ops.Conn)) (p : Thread ops.Conn)
        → Looks p
        → s.threads ≡ xs ++ p ∷ ys
        → s.locked ≡ false
        → ops.ready s.pool ≡ true
        → s.closer ≡ not_called
        → Step s
            (record s { pool = ops.shut s.pool; closer = flag_set; threads = xs ++ refused ∷ ys })
    shuts : s.closer ≡ not_called → Step s (record s { pool = ops.shut s.pool; closer = flag_set })
    notifies :
        s.closer ≡ flag_set → Step s (record s { closer = returned; threads = map wake s.threads })

  pub data Reach (s : System) : System → Type 0 where
    here : Reach s s
    next : {t u : System} → Reach s t → Step t u → Reach s u
