-- ===== src/Common/Waiting/Notify.antt =====
-- The notification of `returnConnection`, and the threads that wait for it.
use quick_chat.Prelude.{
  ◌+◌, ◌≤◌, ◌<◌, true, false, List, [], ◌∷◌, ◌++◌, ◌≡◌, refl, sym, ap, ◌∙◌, inl, inr, arith, length,
  length-append, List-cases, if◌then◌else◌,
}
use quick_chat.Common.Waiting.{
  PoolOps, Laws, Thread, outside, checked, asleep, woken, user, sleeper, total, Notified, nobody,
  one, Looks, System, Step, takes, gives_up, checks, sleeps, returns, returns_late, spurious, shuts,
  shuts_over, keeps, notifies, Reach, here, next,
}
use quick_chat.Common.Waiting.Counts.{
  total_at, waker, checker, Notified-total, total-wake, find_woken, counted, counted_in,
  none_asleep,
}
use quick_chat.Common.Waiting.Conserve.{get_front, get-ne-null, Step-stopped}

pub Looks-weights :
    {C : Type 0} {p : Thread C} → Looks p → (sleeper p ≡ 0) × (checker p ≡ 0) × (waker p ≤ 1)
Looks-weights (inl e) = ground arith
Looks-weights (inr e) = ground arith

module _ (ops : PoolOps) (laws : Laws ops) where
  -- The thread that holds the mutex between two steps is the one that has found the pool empty;
  -- and with a thread asleep, each idle connection has a woken thread on its way.
  pub record Inv (s : System ops) : Type 0 where
    pub owner : total checker s.threads ≡ (if s.locked then 1 else 0)
    pub empty : s.locked ≡ true → ops.idle s.pool ≡ []
    pub heard : 0 < total sleeper s.threads → length (ops.idle s.pool) ≤ total waker s.threads

  -- After a notification a thread sleeps only if there is one woken thread more.
  Notified-heard :
      {ts us : List (Thread ops.Conn)}
      → Notified ts us
      → 0 < total sleeper us
      → (0 < total sleeper ts) × (total waker us ≡ total waker ts + 1)
  Notified-heard (nobody h) k = absurd (omega arith)
  Notified-heard (one xs ys e) k = omega (
    arith,
    total_at sleeper xs ys asleep,
    total_at sleeper xs ys woken,
    total_at waker xs ys asleep,
    total_at waker xs ys woken,
    ap (total sleeper) e,
    ap (total waker) e,
  )

  not_ready : (p : ops.Pool) → ops.stopped p ≡ false → ops.ready p ≡ false → ops.idle p ≡ []
  not_ready p h r = elim (List-cases (ops.idle p)) [
    | inl e ↦ e
    | inr (c, cs, e) ↦ absurd (ground (arith, laws.full_ready p c cs h e))
  ]

  Step-Inv : {s t : System ops} → Step ops s t → ops.stopped t.pool ≡ false → Inv s → Inv t
  Step-Inv {s} (takes xs ys p c l e k r g) h v =
      let before = counted_in xs ys s.threads p e in
      let after = counted xs ys (user c) in
      let front = ap length (get_front ops laws s.pool c (sym (laws.get_stopped s.pool) ∙ h) r g) in
      ground (arith, before, after, front, Looks-weights l, v.owner, v.heard)
  Step-Inv {s} (gives_up xs ys p l e k r g) h v =
      absurd (get-ne-null ops laws s.pool (sym (laws.get_stopped s.pool) ∙ h) r g)
  Step-Inv {s} (checks xs ys p l e k r) h v =
      let before = counted_in xs ys s.threads p e in
      let after = counted xs ys checked in
      let none_idle = not_ready s.pool h r in
      ground (arith, before, after, none_idle, Looks-weights l, v.owner, v.heard)
  Step-Inv {s} (sleeps xs ys e) h v =
      let before = counted_in xs ys s.threads checked e in
      let after = counted xs ys asleep in ground (arith, before, after, v.owner, v.empty)
  Step-Inv {s} (returns xs ys us c e k r n) h v =
      let before = counted_in xs ys s.threads (user c) e in
      let after = counted xs ys outside in
      let back = ap length (laws.give_idle s.pool c r) in
      ground (
        arith,
        before,
        after,
        back,
        length-append (ops.idle s.pool) (c ∷ []),
        Notified-total checker refl n,
        Notified-heard n,
        v.owner,
        v.heard,
      )
  Step-Inv {s} (returns_late xs ys c e k r) h v =
      absurd (ground (arith, laws.give_stopped s.pool c))
  Step-Inv {s} (spurious xs ys e) h v =
      let before = counted_in xs ys s.threads asleep e in
      let after = counted xs ys woken in ground (arith, before, after, v.owner, v.empty, v.heard)
  Step-Inv {s} (keeps q k r) h v = ground (arith, laws.kept_fewer s.pool q r, v.owner, v.heard)
  Step-Inv {s} (shuts_over xs ys p l e k r c) h v =
      absurd (ground (arith, laws.shut_stopped s.pool))
  Step-Inv {s} (shuts e) h v = absurd (ground (arith, laws.shut_stopped s.pool))
  Step-Inv {s} (notifies e) h v =
      ground (arith, total-wake checker refl s.threads, none_asleep s.threads, v.owner, v.empty)

  Reach-Inv : {s t : System ops} → Reach ops s t → ops.stopped t.pool ≡ false → Inv s → Inv t
  Reach-Inv here h v = v
  Reach-Inv (next r st) h v = Step-Inv st h (Reach-Inv r (Step-stopped ops laws st h) v)

  start-Inv :
      {s : System ops}
      → s.locked ≡ false
      → total checker s.threads ≡ 0
      → total sleeper s.threads ≡ 0
      → Inv s
  start-Inv k c h = ground arith

  -- No notification of `returnConnection` is missed, in whatever order the threads run: from a
  -- start in which no thread holds the mutex or sleeps, as long as the pool is not stopped, in
  -- every state in which a thread sleeps while a connection is idle, some thread can take the
  -- connection at the front in its next step.
  pub Reach-progress :
      {s t : System ops}
      → s.locked ≡ false
      → total checker s.threads ≡ 0
      → total sleeper s.threads ≡ 0
      → Reach ops s t
      → ops.stopped t.pool ≡ false
      → 0 < total sleeper t.threads
      → (c : ops.Conn) (cs : List ops.Conn) → ops.idle t.pool ≡ c ∷ cs
      → (xs ys : List (Thread ops.Conn)) × (t.threads ≡ xs ++ woken ∷ ys)
        × Step ops t (record t { pool = (ops.get t.pool).1; threads = xs ++ user c ∷ ys })
  Reach-progress {t = t} k no_owner quiet r h sleeping c cs e =
      let v = Reach-Inv r h (start-Inv k no_owner quiet) in
      let (ready, gives, rest) = laws.full_ready t.pool c cs h e in
      let some_woken : 0 < total waker t.threads = omega (arith, v.heard sleeping, ap length e) in
      let (xs, ys, f) = find_woken t.threads some_woken in
      (xs, ys, f, takes xs ys woken c (inr refl) f (ground (arith, v.empty)) ready gives)
