-- ===== src/Common/Waiting/Conserve.antt =====
-- The connections of a pool and of its users together.
use quick_chat.Prelude.{
  ℕ, ◌+◌, true, false, [], ◌∷◌, none, some, ◌≡◌, refl, sym, ap, ◌∙◌, inl, inr, arith, done,
  List-cases,
}
use quick_chat.Common.Waiting.{
  PoolOps, Laws, Thread, outside, checked, asleep, woken, user, total, Looks, System, Step, takes,
  gives_up, checks, sleeps, returns, returns_late, spurious, shuts, shuts_over, keeps, notifies,
  Reach, here, next,
}
use quick_chat.Common.Waiting.Counts.{total_at, total-append, usage, Notified-total, total-wake}

module _ (ops : PoolOps) (laws : Laws ops) where
  -- On a pool that is not stopped, what `getConnection` gives is the front of the queue.
  pub get_front :
      (p : ops.Pool) (c : ops.Conn)
      → ops.stopped p ≡ false
      → ops.ready p ≡ true
      → (ops.get p).0 ≡ done (some c)
      → ops.idle p ≡ c ∷ ops.idle (ops.get p).1
  get_front p c h r g = elim (List-cases (ops.idle p)) [
    | inl e ↦ absurd (ground (arith, laws.empty_waits p h e))
    | inr (d, cs, e) ↦ ground (arith, laws.full_ready p d cs h e)
  ]

  -- It never gives null there.
  pub get-ne-null :
      (p : ops.Pool) → ops.stopped p ≡ false → ops.ready p ≡ true → (ops.get p).0 ≡ done none → ⊥
  get-ne-null p h r g = elim (List-cases (ops.idle p)) [
    | inl e ↦ ground (arith, laws.empty_waits p h e)
    | inr (d, cs, e) ↦ ground (arith, laws.full_ready p d cs h e)
  ]

  -- A pool that is not stopped has never been.
  pub Step-stopped :
      {s t : System ops} → Step ops s t → ops.stopped t.pool ≡ false → ops.stopped s.pool ≡ false
  Step-stopped {s} (takes xs ys p c l e k r g) h = sym (laws.get_stopped s.pool) ∙ h
  Step-stopped {s} (gives_up xs ys p l e k r g) h = sym (laws.get_stopped s.pool) ∙ h
  Step-stopped (checks xs ys p l e k r) h = h
  Step-stopped (sleeps xs ys e) h = h
  Step-stopped (returns xs ys us c e k r n) h = r
  Step-stopped {s} (returns_late xs ys c e k r) h = sym (laws.give_stopped s.pool c) ∙ h
  Step-stopped (spurious xs ys e) h = h
  Step-stopped {s} (keeps q k r) h = sym (laws.kept_stopped s.pool q r) ∙ h
  Step-stopped {s} (shuts_over xs ys p l e k r c) h =
      absurd (ground (arith, laws.shut_stopped s.pool))
  Step-stopped {s} (shuts e) h = absurd (ground (arith, laws.shut_stopped s.pool))
  Step-stopped (notifies e) h = h

  Reach-stopped :
      {s t : System ops} → Reach ops s t → ops.stopped t.pool ≡ false → ops.stopped s.pool ≡ false
  Reach-stopped here h = h
  Reach-stopped (next r st) h = Reach-stopped r (Step-stopped st h)

  module _ (f : ops.Conn → ℕ) where
    -- The weights of all connections, idle or in use.
    abbrev pub weight : System ops → ℕ
    weight s = total f (ops.idle s.pool) + total (usage f) s.threads

    usage-Looks : {p : Thread ops.Conn} → Looks p → usage f p ≡ 0
    usage-Looks (inl e) = ap (usage f) e
    usage-Looks (inr e) = ap (usage f) e

    Step-weight :
        ((p q : ops.Pool) → ops.Kept p q → total f (ops.idle q) ≡ total f (ops.idle p))
        → {s t : System ops} → Step ops s t
        → ops.stopped t.pool ≡ false
        → weight t ≡ weight s
    unfolding total
    Step-weight kept {s} (takes xs ys p c l e k r g) h = omega (
      arith,
      ap (total f) (get_front s.pool c (sym (laws.get_stopped s.pool) ∙ h) r g),
      total_at (usage f) xs ys p,
      total_at (usage f) xs ys (user c),
      usage-Looks l,
      ap (total (usage f)) e,
    )
    Step-weight kept {s} (gives_up xs ys p l e k r g) h =
        absurd (get-ne-null s.pool (sym (laws.get_stopped s.pool) ∙ h) r g)
    Step-weight kept (checks xs ys p l e k r) h = omega (
      arith,
      total_at (usage f) xs ys p,
      total_at (usage f) xs ys checked,
      usage-Looks l,
      ap (total (usage f)) e,
    )
    Step-weight kept (sleeps xs ys e) h = omega (
      arith,
      total_at (usage f) xs ys checked,
      total_at (usage f) xs ys asleep,
      ap (total (usage f)) e,
    )
    Step-weight kept {s} (returns xs ys us c e k r n) h = omega (
      arith,
      ap (total f) (laws.give_idle s.pool c r),
      total-append f (ops.idle s.pool) (c ∷ []),
      Notified-total (usage f) refl n,
      total_at (usage f) xs ys (user c),
      total_at (usage f) xs ys outside,
      ap (total (usage f)) e,
    )
    Step-weight kept {s} (returns_late xs ys c e k r) h =
        absurd (ground (arith, laws.give_stopped s.pool c))
    Step-weight kept (spurious xs ys e) h = omega (
      arith,
      total_at (usage f) xs ys asleep,
      total_at (usage f) xs ys woken,
      ap (total (usage f)) e,
    )
    Step-weight kept {s} (keeps q k r) h = omega (arith, kept s.pool q r)
    Step-weight kept {s} (shuts_over xs ys p l e k r c) h =
        absurd (ground (arith, laws.shut_stopped s.pool))
    Step-weight kept {s} (shuts e) h = absurd (ground (arith, laws.shut_stopped s.pool))
    Step-weight kept {s} (notifies e) h = omega (arith, total-wake (usage f) refl s.threads)

    pub Reach-weight :
        ((p q : ops.Pool) → ops.Kept p q → total f (ops.idle q) ≡ total f (ops.idle p))
        → {s t : System ops} → Reach ops s t
        → ops.stopped t.pool ≡ false
        → weight t ≡ weight s
    Reach-weight kept here h = refl
    Reach-weight kept (next r st) h =
        Step-weight kept st h ∙ Reach-weight kept r (Step-stopped st h)
