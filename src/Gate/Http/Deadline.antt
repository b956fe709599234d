-- ===== src/Gate/Http/Deadline.antt =====
-- The life of a connection of servers/GateServer/src/HttpConnection.cpp against its timer, which is
-- set to 60 seconds when the object is made, and waited for from the end of the handler of the
-- read on. A step is a handler that runs, or a second that passes.
use quick_chat.Prelude.{
  ℕ, zero, suc, subst, ◌+◌, ◌≤◌, ◌<◌, Bool, true, false, ◌≡◌, ◌≢◌, ◌⊎◌, inl, inr, refl, arith,
  Bool-cases,
}

abbrev pub time_limit : ℕ
time_limit = 60

-- What the server waits for of the client: the connection itself, for which `CServer::Start` has made
-- the object with its timer already, the request, or the end of the write of the response.
-- `unanswered`: the request was read, and no response is written. `over`: neither, so that the
-- connection is released once the timer is not waited for either.
pub data Stage : Type 0 where
  accepting reading writing unanswered over : Stage

-- `queued`: the time is over, and the handler of `CheckDeadline` is about to run.
pub data Timer : Type 0 where
  not_waiting waiting queued cancelled fired : Timer

-- `now`: the seconds since the object was made. `cut`: the deadline has closed the socket.
pub record Life : Type 0 where
  pub stage : Stage
  pub timer : Timer
  pub now : ℕ
  pub cut : Bool

abbrev pub born : Life
born = record { stage = accepting; timer = not_waiting; now = 0; cut = false }

-- `deadline_.cancel()`, which is too late for a handler that is queued.
abbrev pub cancel : Timer → Timer
cancel waiting = cancelled
cancel not_waiting = not_waiting
cancel cancelled = cancelled
cancel queued = queued
cancel fired = fired

-- A connection with no request to answer is released with its timer.
abbrev pub released : Stage → Stage
released accepting = accepting
released reading = reading
released writing = writing
released unanswered = over
released over = over

-- The handler of `WriteResponse`, at its end or after an error.
abbrev pub end_write : Life → Life
end_write s = record s { stage = over; timer = cancel s.timer }

pub data Step (s : Life) : Life → Type 0 where
  tick : Step s (record s { now = s.now + 1 })
  -- The handler of `CServer::Start`; with an error it drops the object.
  accepts : s.stage ≡ accepting → Step s (record s { stage = reading })
  drops : s.stage ≡ accepting → Step s (record s { stage = over })
  -- The handler of `Start`, after a failed read, or when `HandleReq` throws.
  gives_up : s.stage ≡ reading → Step s (record s { stage = over })
  -- The same when `HandleReq` has called `WriteResponse`, and when it has not; then `CheckDeadline`.
  answers : s.stage ≡ reading → Step s (record s { stage = writing; timer = waiting })
  ignores : s.stage ≡ reading → Step s (record s { stage = unanswered; timer = waiting })
  written : s.stage ≡ writing → Step s (end_write s)
  elapses : s.timer ≡ waiting → time_limit ≤ s.now → Step s (record s { timer = queued })
  -- The handler of `CheckDeadline`. A write that is outstanding goes on, and fails.
  expires :
      s.timer ≡ queued → Step s (record s { timer = fired; cut = true; stage = released s.stage })

pub data Reach (s : Life) : Life → Type 0 where
  here : Reach s s
  next : {t u : Life} → Reach s t → Step t u → Reach s u

-- The timer is waited for only after the read, and its handler runs only after its time.
record Inv (s : Life) : Type 0 where
  early : (s.stage ≡ accepting) ⊎ (s.stage ≡ reading) → (s.timer ≡ not_waiting) × (s.cut ≡ false)
  late : (s.timer ≡ queued) ⊎ (s.timer ≡ fired) ⊎ (s.cut ≡ true) → time_limit ≤ s.now

Step-Inv : {s t : Life} → Step s t → Inv s → Inv t
Step-Inv tick v = record { early = v.early; late = λ h. omega (arith, v.late h) }
Step-Inv (accepts e) v = ground arith
Step-Inv (drops e) v = ground arith
Step-Inv (gives_up e) v = ground arith
Step-Inv (answers e) v = ground arith
Step-Inv (ignores e) v = ground arith
Step-Inv (written e) v = ground arith
Step-Inv (elapses e k) v = ground arith
Step-Inv (expires e) v = ground arith

Reach-Inv : {t : Life} → Reach born t → Inv t
Reach-Inv here = ground arith
Reach-Inv (next r st) = Step-Inv st (Reach-Inv r)

-- Until the request is read the deadline does nothing, however long that takes: in every state that
-- is reached and in which the request is awaited, the connection is open and no next step cuts it
-- off, so a client that sends no request keeps its connection.
pub reading_uncut :
    {t u : Life} → Reach born t → t.stage ≡ reading → Step t u → (t.cut ≡ false) × (u.cut ≡ false)
reading_uncut r e st = (((Reach-Inv r).early (inr e)).1, stays st (Reach-Inv r) e)
  where
    stays : {t u : Life} → Step t u → Inv t → t.stage ≡ reading → u.cut ≡ false
    stays (accepts f) v e = absurd (cc)
    stays (drops f) v e = absurd (cc)
    stays tick v e = (v.early (inr e)).1
    stays (gives_up f) v e = (v.early (inr e)).1
    stays (answers f) v e = (v.early (inr e)).1
    stays (ignores f) v e = (v.early (inr e)).1
    stays (written f) v e = (v.early (inr e)).1
    stays (elapses f k) v e = (v.early (inr e)).1
    stays (expires f) v e = absurd (ground arith)

-- The deadline is over for good once the response is written in time.
record Safe (s : Life) : Type 0 where
  uncut : s.cut ≡ false
  past : s.stage ≡ over
  dead : (s.timer ≡ cancelled) ⊎ (s.timer ≡ not_waiting)

Step-Safe : {s t : Life} → Step s t → Safe s → Safe t
Step-Safe tick v = record { uncut = v.uncut; past = v.past; dead = v.dead }
Step-Safe (accepts e) v = absurd (ground arith)
Step-Safe (drops e) v = absurd (ground arith)
Step-Safe (gives_up e) v = absurd (ground arith)
Step-Safe (answers e) v = absurd (ground arith)
Step-Safe (ignores e) v = absurd (ground arith)
Step-Safe (written e) v = absurd (ground arith)
Step-Safe (elapses e k) v = absurd (ground arith)
Step-Safe (expires e) v = absurd (ground arith)

Reach-Safe : {s t : Life} → Safe s → Reach s t → Safe t
Reach-Safe v here = v
Reach-Safe v (next r st) = Step-Safe st (Reach-Safe v r)

cancel-dead :
    (x : Timer) → x ≢ queued → x ≢ fired → (cancel x ≡ cancelled) ⊎ (cancel x ≡ not_waiting)
cancel-dead not_waiting h k = inr refl
cancel-dead waiting h k = inl refl
cancel-dead queued h k = absurd (h refl)
cancel-dead cancelled h k = inl refl
cancel-dead fired h k = absurd (k refl)

-- A response whose write ends less than 60 seconds after the object of its connection was made,
-- which is before the client connects, is never cut off: from the handler of that write on, whatever happens, the deadline does not close the connection.
pub written_in_time :
    {t u : Life}
    → Reach born t
    → t.stage ≡ writing
    → t.now < time_limit
    → Reach (end_write t) u
    → u.cut ≡ false
written_in_time {t} r e early after = (Reach-Safe start after).uncut
  where
    start : Safe (end_write t)
    start = record {
      uncut = elim (Bool-cases t.cut) [
        | inl h ↦ absurd (omega (arith, (Reach-Inv r).late (inr (inr h))))
        | inr h ↦ h
      ];
      past = refl;
      dead =
          cancel-dead t.timer (λ h. omega (arith, (Reach-Inv r).late (inl h)))
            (λ h. omega (arith, (Reach-Inv r).late (inr (inl h))));
    }

ticks : (n : ℕ) → Reach born (record born { now = n })
ticks zero = here
ticks (suc n) =
    subst (λ k. Reach born (record born { now = k })) (omega arith) (next (ticks n) tick)

-- The 60 seconds of a connection start while the server still waits for a client: where the client
-- connects 60 seconds or more after that, its request can be cut off at once, before the response
-- is written, however soon it comes and is answered.
pub late_client_cut :
    (n : ℕ)
    → time_limit ≤ n
    → (t u : Life) × Reach born t
      × (t.stage ≡ accepting)
      × (t.now ≡ n)
      × Reach t u
      × (u.stage ≡ writing)
      × (u.cut ≡ true)
      × (u.now ≡ n)
late_client_cut n late = (
  _,
  _,
  ticks n,
  refl,
  refl,
  next (next (next (next here (accepts refl)) (answers refl)) (elapses refl late)) (expires refl),
  refl,
  refl,
  refl,
)
