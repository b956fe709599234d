-- ===== src/Common/Mysql/Refresh.antt =====
-- `MySqlPool::checkConnection`, the keep-alive of the pool.
use quick_chat.Prelude.{
  ℕ, zero, suc, true, false, some, ◌+◌, ◌<◌, List, [], ◌∷◌, ◌++◌, ◌≡◌, refl, sym, ap, ◌∙◌, ◌⊎◌, inl,
  inr, arith, append-nil, append_assoc, length, length-append, All, Bool-cases, Option-cases, ltb,
  ltb→lt, Outcome, done, threw,
}
use quick_chat.Common.Mysql.Pool.{
  SqlConnection, MySqlPool, Driver, refresh, check_loop, check_connection,
}

-- Used, or seen alive, less than five seconds before `now`.
abbrev pub IsFresh : ℕ → SqlConnection → Type 0
IsFresh now c = now < c.last_oper_time + 5

-- What the check makes of a connection: one that was used in time is left alone; another is kept
-- where it answers, and else the driver has made a new one for it; both then count as used now.
abbrev pub Checked : Driver → ℕ → SqlConnection → SqlConnection → Type 0
Checked d now c c' =
    (IsFresh now c × (c' ≡ c))
    ⊎ ((d.alive c.con ≡ true) × (c' ≡ record c { last_oper_time = now }))
    ⊎ ((d.alive c.con ≡ false)
        × (i : ℕ) × (k : ℕ) × (d.connect i ≡ some k)
        × (c' ≡ record { con = k; last_oper_time = now }))

abbrev pub AllChecked : Driver → ℕ → List SqlConnection → List SqlConnection → Type 0
AllChecked d now [] [] = Unit {0}
AllChecked d now (c ∷ cs) (c' ∷ cs') = Checked d now c c' × AllChecked d now cs cs'
AllChecked d now [] (c' ∷ cs') = ⊥
AllChecked d now (c ∷ cs) [] = ⊥

refresh_cases :
    (d : Driver) (now i : ℕ) (c : SqlConnection)
    → ((c' : SqlConnection) × (refresh d now i c ≡ done c') × Checked d now c c' × IsFresh now c')
      ⊎ (refresh d now i c ≡ threw)
unfolding refresh
refresh_cases d now i c = elim (Bool-cases (ltb now (c.last_oper_time + 5))) [
  | inl e ↦ inl (c, rw e, inl (ltb→lt _ _ e, refl), ltb→lt _ _ e)
  | inr e ↦ elim (Bool-cases (d.alive c.con)) [
    | inl e' ↦
        inl (record c { last_oper_time = now }, rw (e, e'), inr (inl (e', refl)), omega arith)
    | inr e' ↦ elim (Option-cases (d.connect i)) [
      | inl f ↦ inr (ground arith)
      | inr (k, f) ↦ inl (
        record { con = k; last_oper_time = now },
        ground arith,
        inr (inr (e', i, k, f, refl)),
        omega arith,
      )
    ]
  ]
]

-- The queue after the loop: the connections not looked at, and then those that were.
check_loop_done :
    (d : Driver) (now : ℕ) (xs ys : List SqlConnection)
    → (check_loop d now (length xs) (xs ++ ys)).0 ≡ done tt
    → (zs : List SqlConnection) × ((check_loop d now (length xs) (xs ++ ys)).1 ≡ ys ++ zs)
      × (length zs ≡ length xs)
      × AllChecked d now xs zs
      × All (IsFresh now) zs
unfolding check_loop
check_loop_done d now [] ys h = ([], sym (append-nil ys), refl, tt, tt)
check_loop_done d now (x ∷ xs) ys h = elim (refresh_cases d now (length xs) x) [
  | inr e ↦ absurd (ground arith)
  | inl (x', e, how, fresh) ↦
      let rest : Outcome (Unit {0}) × List SqlConnection =
        check_loop d now (length xs) (xs ++ (ys ++ x' ∷ [])) in
      let step : check_loop d now (suc (length xs)) (x ∷ (xs ++ ys)) ≡ rest =
        ground (arith, append_assoc xs ys (x' ∷ [])) in
      let (zs, all, len, checked, good) =
        check_loop_done d now xs (ys ++ x' ∷ []) (sym (ap (λ r. r.0) step) ∙ h) in
      (
        x' ∷ zs,
        ap (λ r. r.1) step ∙ all ∙ append_assoc ys (x' ∷ []) zs,
        omega (arith, len),
        (how, checked),
        (fresh, good),
      )
]

check_loop-length :
    (d : Driver) (now rounds : ℕ) (cs : List SqlConnection)
    → length (check_loop d now rounds cs).1 ≡ length cs
unfolding check_loop
check_loop-length d now zero cs = refl
check_loop-length d now (suc rounds) [] = refl
check_loop-length d now (suc rounds) (c ∷ cs) = elim (refresh_cases d now rounds c) [
  | inl (c', e, how, f) ↦
      ground (arith, check_loop-length d now rounds (cs ++ c' ∷ []), length-append cs (c' ∷ []))
  | inr e ↦ ground (arith, length-append cs (c ∷ []))
]

-- A check that does not throw has looked at every connection, and leaves them in their order. One
-- that was used less than five seconds ago stays as it is; another one stays where it answers the
-- query, and a connection that the driver has just made takes its place where it does not, and both
-- get the time of the check. So none was used longer ago than five seconds.
pub check_connection_refreshes :
    (d : Driver) (now : ℕ) (p : MySqlPool)
    → (check_connection d now p).0 ≡ done tt
    → AllChecked d now p.pool (check_connection d now p).1.pool
      × All (IsFresh now) (check_connection d now p).1.pool
unfolding check_connection
check_connection_refreshes d now p h =
    let same : p.pool ++ [] ≡ p.pool = append-nil p.pool in
    let (zs, all, len, checked, good) = check_loop_done d now p.pool [] (rw same h) in
    let whole : (check_loop d now (length p.pool) p.pool).1 ≡ zs = rw same at all in
    (rw whole checked, rw whole good)

-- A check loses no connection and adds none, also where the reconnection throws.
pub check_connection-length :
    (d : Driver) (now : ℕ) (p : MySqlPool)
    → length (check_connection d now p).1.pool ≡ length p.pool
unfolding check_connection
check_connection-length d now p = check_loop-length d now (length p.pool) p.pool
