-- ===== src/Chat/Logic/Wakeup.antt =====
-- The wait of the worker and the notifications, as interleaved steps: `PostMsgToQue` lets go of the
-- mutex before it notifies, so a post is two steps.
use quick_chat.Prelude.{
  ℕ, zero, suc, ◌+◌, ◌<◌, true, false, [], ◌≡◌, ◌≢◌, ◌⊎◌, inl, inr, refl, ap, subst, arith,
  if◌then◌else◌,
}
use quick_chat.Chat.Logic.{
  LogicNode, CallBacks, LogicSystem, post_msg_to_que, waits, goes_on, leaves, deal_round, next_msg,
}

-- Where the worker is: in its loop, asleep in the wait, or past the loop.
pub data Worker : Type 0 where
  looping asleep finished : Worker

-- A notified worker is back in its loop: the condition variable wakes it.
abbrev pub wake : Worker → Worker
wake asleep = looping
wake looping = looping
wake finished = finished

module _ {W : Type 0} (callbacks : CallBacks W) where
  -- `pending`: the posts that have let go of the mutex and are about to notify.
  pub record System : Type 0 where
    pub logic : LogicSystem W
    pub worker : Worker
    pub pending : ℕ

  pub data Step (s : System) : System → Type 0 where
    -- The two halves of a post; the second only where the queue had been empty.
    post :
        (m : LogicNode) (l : LogicSystem W)
        → post_msg_to_que m (record s.logic { notified = false }) ≡ l
        → Step s (record s { logic = l; pending = if l.notified then s.pending + 1 else s.pending })
    notify : (n : ℕ) → s.pending ≡ suc n → Step s (record s { worker = wake s.worker; pending = n })
    -- A round of the worker, its wait, and its end.
    round :
        (l : LogicSystem W)
        → s.worker ≡ looping
        → deal_round callbacks s.logic ≡ goes_on l
        → Step s (record s { logic = l })
    sleep :
        s.worker ≡ looping
        → deal_round callbacks s.logic ≡ waits
        → Step s (record s { worker = asleep })
    leave :
        (l : LogicSystem W)
        → s.worker ≡ looping
        → deal_round callbacks s.logic ≡ leaves l
        → Step s (record s { logic = l; worker = finished })
    -- A wake-up with no cause.
    spurious : s.worker ≡ asleep → Step s (record s { worker = looping })

  pub data Reach (s : System) : System → Type 0 where
    here : Reach s s
    next : {t u : System} → Reach s t → Step t u → Reach s u

  -- A worker that sleeps has nothing to do, or a notification is on its way.
  abbrev NoneWaits : System → Type 0
  NoneWaits s = s.worker ≡ asleep → (s.logic.msg_que ≡ []) ⊎ (0 < s.pending)

  post_empty :
      (m : LogicNode) (s : LogicSystem W) → s.msg_que ≡ [] → (post_msg_to_que m s).notified ≡ true
  unfolding post_msg_to_que
  post_empty m s e = ground arith

  waits_empty : (s : LogicSystem W) → deal_round callbacks s ≡ waits → s.msg_que ≡ []
  unfolding deal_round next_msg
  waits_empty s h = ground arith

  wake_awake : (w : Worker) → wake w ≢ asleep
  wake_awake looping h = cc
  wake_awake asleep h = cc
  wake_awake finished h = cc

  Step-NoneWaits : {s t : System} → Step s t → NoneWaits s → NoneWaits t
  Step-NoneWaits {s} (post m l e) v h = inr (elim (v h) [
    | inl k ↦ ground (arith, post_empty m (record s.logic { notified = false }) k)
    | inr k ↦ ground arith
  ])
  Step-NoneWaits {s} (notify n e) v h = absurd (wake_awake s.worker h)
  Step-NoneWaits (round l e f) v h = absurd (ground arith)
  Step-NoneWaits {s} (sleep e f) v h = inl (waits_empty s.logic f)
  Step-NoneWaits (leave l e f) v h = absurd (ground arith)
  Step-NoneWaits (spurious e) v h = absurd (ground arith)

  Reach-NoneWaits : {s t : System} → s.worker ≢ asleep → Reach s t → NoneWaits t
  Reach-NoneWaits awake here h = absurd (awake h)
  Reach-NoneWaits awake (next r st) h = Step-NoneWaits st (Reach-NoneWaits awake r) h

  woken_by :
      (t : System) (n : ℕ)
      → t.worker ≡ asleep
      → t.pending ≡ n
      → 0 < n
      → (k : ℕ) × (t.pending ≡ suc k) × Step t (record t { worker = looping; pending = k })
  woken_by t zero a e h = absurd (omega arith)
  woken_by t (suc k) a e h =
      (k, e, subst (λ w. Step t (record t { worker = w; pending = k })) (ap wake a) (notify k e))

  -- No post is missed, though `PostMsgToQue` notifies only when the queue had been empty, and only
  -- after it has let go of the mutex: in every interleaving from a state in which the worker is not
  -- asleep, a worker that is asleep has an empty queue, or a post is about to notify and wakes it
  -- when it does.
  pub Reach-wakes :
      {s t : System}
      → s.worker ≢ asleep
      → Reach s t
      → t.worker ≡ asleep
      → (t.logic.msg_que ≡ [])
        ⊎ ((n : ℕ) × (t.pending ≡ suc n) × Step t (record t { worker = looping; pending = n }))
  Reach-wakes {t = t} awake r h = elim (Reach-NoneWaits awake r h) [
    | inl e ↦ inl e
    | inr k ↦ inr (woken_by t t.pending h refl k)
  ]
