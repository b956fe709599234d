-- ===== src/Common/Waiting/Close.antt =====
-- `Close`, which sets its flag and notifies without the mutex.
use quick_chat.Prelude.{
  Bool, true, false, List, [], ◌∷◌, ◌++◌, ◌≡◌, ◌≢◌, ◌⊎◌, refl, sym, ◌∙◌, inl, inr, arith,
}
use quick_chat.Common.Waiting.{
  PoolOps, Laws, Thread, outside, checked, asleep, woken, refused, user, sleeper, total, Closer,
  not_called, flag_set, returned, Looks, System, Step, takes, gives_up, checks, sleeps, returns,
  returns_late, spurious, shuts, shuts_over, keeps, notifies, Reach, here, next,
}
use quick_chat.Common.Waiting.Counts.{checker, total-wake, counted, counted_in, none_asleep}
use quick_chat.Common.Waiting.Notify.{Looks-weights}

single :
    {C : Type 0} (xs ys : List (Thread C)) {p a : Thread C}
    → a ∷ [] ≡ xs ++ p ∷ ys
    → (xs ≡ []) × (p ≡ a) × (ys ≡ [])
single [] ys e = (refl, cc, cc)
single (x ∷ []) ys e = absurd (cc)
single (x ∷ x' ∷ xs) ys e = absurd (cc)

module _ (ops : PoolOps) (laws : Laws ops) where
  -- One thread, and what is left of it.
  abbrev pub alone : ops.Pool → Closer → Bool → Thread ops.Conn → System ops
  alone p closer locked t = record { pool = p; locked = locked; closer = closer; threads = t ∷ [] }

  missed :
      (p : ops.Pool)
      → ops.stopped p ≡ false
      → ops.idle p ≡ []
      → Reach ops (alone p not_called false outside) (alone (ops.shut p) returned false asleep)
  missed p h e =
      next
        (next
          (next (next here (checks [] [] outside (inl refl) refl refl (laws.empty_waits p h e)))
            (shuts refl))
          (notifies refl))
        (sleeps [] [] refl)

  Looks-awake : {p : Thread ops.Conn} → Looks p → p ≡ asleep → ⊥
  Looks-awake (inl e) h = absurd (ground arith)
  Looks-awake (inr e) h = absurd (ground arith)

  only_spurious :
      {s t : System ops}
      → Step ops s t
      → s.closer ≡ returned
      → s.threads ≡ asleep ∷ []
      → (t.threads ≡ asleep ∷ []) ⊎ (t ≡ record s { threads = woken ∷ [] })
  only_spurious (takes xs ys p c l e k r g) f h =
      absurd (Looks-awake l (single xs ys (sym h ∙ e)).1)
  only_spurious (gives_up xs ys p l e k r g) f h =
      absurd (Looks-awake l (single xs ys (sym h ∙ e)).1)
  only_spurious (checks xs ys p l e k r) f h = absurd (Looks-awake l (single xs ys (sym h ∙ e)).1)
  only_spurious (sleeps xs ys e) f h = absurd (ground (arith, single xs ys (sym h ∙ e)))
  only_spurious (returns xs ys us c e k r n) f h = absurd (ground (arith, single xs ys (sym h ∙ e)))
  only_spurious (returns_late xs ys c e k r) f h = absurd (ground (arith, single xs ys (sym h ∙ e)))
  only_spurious (spurious xs ys e) f h = inr (ground (arith, single xs ys (sym h ∙ e)))
  only_spurious (keeps q k r) f h = inl h
  only_spurious (shuts_over xs ys p l e k r c) f h = absurd (ground arith)
  only_spurious (shuts e) f h = absurd (ground arith)
  only_spurious (notifies e) f h = absurd (ground arith)

  -- `Close` can be missed, since it does not take the mutex: on a pool that is empty and not
  -- stopped, a thread can look at the predicate before the flag is set and go to sleep after the
  -- notification. `Close` has then returned, and nothing but the end of the wait with no
  -- notification can happen to the thread.
  pub close_missed :
      (p : ops.Pool) {t : System ops}
      → ops.stopped p ≡ false
      → ops.idle p ≡ []
      → Step ops (alone (ops.shut p) returned false asleep) t
      → Reach ops (alone p not_called false outside) (alone (ops.shut p) returned false asleep)
        × ((t.threads ≡ asleep ∷ []) ⊎ (t ≡ alone (ops.shut p) returned false woken))
  close_missed p h e st = (missed p h e, only_spurious st refl refl)

  -- Where the predicate holds on a stopped pool.
  module _ (answers : (p : ops.Pool) → ops.stopped p ≡ true → ops.ready p ≡ true) where
    record Woken (s : System ops) : Type 0 where
      shut : ops.stopped s.pool ≡ true
      no_owner : total checker s.threads ≡ 0
      awake : s.closer ≡ returned → total sleeper s.threads ≡ 0
      begun : s.closer ≢ not_called

    Step-Woken : {s t : System ops} → Step ops s t → Woken s → Woken t
    Step-Woken {s} (takes xs ys p c l e k r g) v =
        let before = counted_in xs ys s.threads p e in
        let after = counted xs ys (user c) in
        ground (arith, before, after, Looks-weights l, laws.get_stopped s.pool, v)
    Step-Woken {s} (gives_up xs ys p l e k r g) v =
        let before = counted_in xs ys s.threads p e in
        let after = counted xs ys refused in
        ground (arith, before, after, Looks-weights l, laws.get_stopped s.pool, v)
    Step-Woken {s} (checks xs ys p l e k r) v = absurd (ground (arith, answers s.pool v.shut))
    Step-Woken {s} (sleeps xs ys e) v =
        let before = counted_in xs ys s.threads checked e in
        absurd (omega (arith, before.checking, v.no_owner))
    Step-Woken {s} (returns xs ys us c e k r n) v = absurd (ground (arith, v.shut))
    Step-Woken {s} (returns_late xs ys c e k r) v =
        let before = counted_in xs ys s.threads (user c) e in
        let after = counted xs ys outside in
        ground (arith, before, after, laws.give_stopped s.pool c, v)
    Step-Woken {s} (spurious xs ys e) v =
        let before = counted_in xs ys s.threads asleep e in
        let after = counted xs ys woken in ground (arith, before, after, v)
    Step-Woken {s} (keeps q k r) v = ground (arith, laws.kept_stopped s.pool q r, v)
    Step-Woken {s} (shuts_over xs ys p l e k r c) v = absurd (v.begun c)
    Step-Woken {s} (shuts e) v = absurd (v.begun e)
    Step-Woken {s} (notifies e) v =
        ground (arith, total-wake checker refl s.threads, none_asleep s.threads, v)

    Reach-Woken : {s t : System ops} → Reach ops s t → Woken s → Woken t
    Reach-Woken here v = v
    Reach-Woken (next r st) v = Step-Woken st (Reach-Woken r v)

    -- On such a pool `Close` reaches every thread that is not between its look at the predicate
    -- and its sleep when the flag is set: from that step on, in whatever order the threads run,
    -- once `Close` has returned no thread sleeps, and none ever will.
    pub close_wakes :
        {s t : System ops}
        → total checker s.threads ≡ 0
        → s.closer ≡ not_called
        → Reach ops (record s { pool = ops.shut s.pool; closer = flag_set }) t
        → t.closer ≡ returned
        → total sleeper t.threads ≡ 0
    close_wakes {s} owner e r f =
        (Reach-Woken r (record {
          shut = laws.shut_stopped s.pool;
          no_owner = owner;
          awake = λ h. absurd (cc);
          begun = λ h. absurd (cc);
        })).awake
          f
