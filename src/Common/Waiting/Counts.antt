-- ===== src/Common/Waiting/Counts.antt =====
-- Threads counted, and one of them found.
use quick_chat.Prelude.{ℕ, ◌+◌, ◌<◌, List, [], ◌∷◌, ◌++◌, ◌≡◌, refl, sym, ap, subst, map, arith}
use quick_chat.Common.Waiting.{
  Thread, outside, checked, asleep, woken, refused, user, wake, sleeper, total, Notified, nobody,
  one,
}

pub total-append {ℓ} :
    {T : Type ℓ} (w : T → ℕ) (xs ys : List T) → total w (xs ++ ys) ≡ total w xs + total w ys
unfolding total
total-append w [] ys = omega arith
total-append w (x ∷ xs) ys = omega (arith, total-append w xs ys)

-- The total with one thread singled out.
pub total_at {ℓ} :
    {T : Type ℓ} (w : T → ℕ) (xs ys : List T) (t : T)
    → total w (xs ++ t ∷ ys) ≡ total w xs + w t + total w ys
unfolding total
total_at w xs ys t = omega (arith, total-append w xs (t ∷ ys))

abbrev pub waker : {C : Type 0} → Thread C → ℕ
waker asleep = 0
waker outside = 0
waker checked = 0
waker woken = 1
waker refused = 0
waker (user c) = 0

abbrev pub checker : {C : Type 0} → Thread C → ℕ
checker asleep = 0
checker outside = 0
checker checked = 1
checker woken = 0
checker refused = 0
checker (user c) = 0

-- A thread whose call of `getConnection` has returned, with a connection or with null.
abbrev pub served : {C : Type 0} → Thread C → ℕ
served (user c) = 1
served refused = 1
served asleep = 0
served outside = 0
served checked = 0
served woken = 0

-- The weight of the connection that a thread uses.
abbrev pub usage : {C : Type 0} → (C → ℕ) → Thread C → ℕ
usage f (user c) = f c
usage f asleep = 0
usage f outside = 0
usage f checked = 0
usage f woken = 0
usage f refused = 0

module _ {C : Type 0} where
  cons_at :
      (t : Thread C) {ts : List (Thread C)}
      → (xs ys : List (Thread C)) × (ts ≡ xs ++ woken ∷ ys)
      → (xs ys : List (Thread C)) × (t ∷ ts ≡ xs ++ woken ∷ ys)
  cons_at t (xs, ys, e) = (t ∷ xs, ys, ap (◌∷◌ t) e)

  -- Where the count of woken threads is not 0, one of them is found.
  pub find_woken :
      (ts : List (Thread C))
      → 0 < total waker ts
      → (xs ys : List (Thread C)) × (ts ≡ xs ++ woken ∷ ys)
  unfolding total
  find_woken [] h = absurd (omega arith)
  find_woken (woken ∷ ts) h = ([], ts, refl)
  find_woken (outside ∷ ts) h = cons_at outside (find_woken ts (omega arith))
  find_woken (checked ∷ ts) h = cons_at checked (find_woken ts (omega arith))
  find_woken (asleep ∷ ts) h = cons_at asleep (find_woken ts (omega arith))
  find_woken (refused ∷ ts) h = cons_at refused (find_woken ts (omega arith))
  find_woken (user c ∷ ts) h = cons_at (user c) (find_woken ts (omega arith))

  -- What a notification does to a count, if waking a thread does nothing to it.
  pub Notified-total :
      (w : Thread C → ℕ) {ts us : List (Thread C)}
      → w asleep ≡ w woken
      → Notified ts us
      → total w us ≡ total w ts
  Notified-total w e (nobody h) = refl
  Notified-total w e (one xs ys f) =
      omega (arith, total_at w xs ys woken, total_at w xs ys asleep, ap (total w) f)

  pub total-wake :
      (w : Thread C → ℕ)
      → w asleep ≡ w woken
      → (ts : List (Thread C)) → total w (map wake ts) ≡ total w ts
  unfolding total
  total-wake w e [] = refl
  total-wake w e (asleep ∷ ts) = omega (arith, total-wake w e ts)
  total-wake w e (outside ∷ ts) = omega (arith, total-wake w e ts)
  total-wake w e (checked ∷ ts) = omega (arith, total-wake w e ts)
  total-wake w e (woken ∷ ts) = omega (arith, total-wake w e ts)
  total-wake w e (refused ∷ ts) = omega (arith, total-wake w e ts)
  total-wake w e (user c ∷ ts) = omega (arith, total-wake w e ts)

  module _ (xs ys : List (Thread C)) where
    -- One thread among the others, seen by each count.
    pub record Counted (ts : List (Thread C)) (p : Thread C) : Type 0 where
      pub sleeping : total sleeper ts ≡ total sleeper xs + sleeper p + total sleeper ys
      pub waking : total waker ts ≡ total waker xs + waker p + total waker ys
      pub checking : total checker ts ≡ total checker xs + checker p + total checker ys

    pub counted : (p : Thread C) → Counted (xs ++ p ∷ ys) p
    counted p = record {
      sleeping = total_at sleeper xs ys p;
      waking = total_at waker xs ys p;
      checking = total_at checker xs ys p;
    }

    pub counted_in : (ts : List (Thread C)) (p : Thread C) → ts ≡ xs ++ p ∷ ys → Counted ts p
    counted_in ts p e = subst (λ us. Counted us p) (sym e) (counted p)

  pub none_asleep : (ts : List (Thread C)) → total sleeper (map wake ts) ≡ 0
  unfolding total
  none_asleep [] = refl
  none_asleep (outside ∷ ts) = omega (arith, none_asleep ts)
  none_asleep (checked ∷ ts) = omega (arith, none_asleep ts)
  none_asleep (asleep ∷ ts) = omega (arith, none_asleep ts)
  none_asleep (woken ∷ ts) = omega (arith, none_asleep ts)
  none_asleep (refused ∷ ts) = omega (arith, none_asleep ts)
  none_asleep (user c ∷ ts) = omega (arith, none_asleep ts)
