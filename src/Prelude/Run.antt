-- ===== src/Prelude/Run.antt =====
-- How a call ends, and calls that change a state: the state is kept however the call ends.
use mathlib.Core.Path.{◌≡◌, refl, ap}

-- `blocked`: a wait that no later step of this thread can end. `threw`: a C++ exception.
-- `crashed`: a null dereference, a failed assertion, `terminate` or another undefined behaviour.
pub data Outcome {ℓ} (A : Type ℓ) : Type ℓ where
  done : A → Outcome A
  blocked threw crashed : Outcome A

abbrev pub M {ℓ} : Type ℓ → Type ℓ → Type ℓ
M S A = S → Outcome A × S

infixl 5 ◌>>=◌ ◌>>◌
abbrev pub and_then {ℓ} : {S A B : Type ℓ} → Outcome A × S → (A → M S B) → Outcome B × S
and_then (done a, s) f = f a s
and_then (blocked, s) f = (blocked, s)
and_then (threw, s) f = (threw, s)
and_then (crashed, s) f = (crashed, s)

abbrev pub ◌>>=◌ {ℓ} : {S A B : Type ℓ} → M S A → (A → M S B) → M S B
◌>>=◌ m f s = and_then (m s) f

abbrev pub ◌>>◌ {ℓ} : {S A B : Type ℓ} → M S A → M S B → M S B
◌>>◌ m k s = and_then (m s) (λ _. k)

abbrev pub return {ℓ} : {S A : Type ℓ} → A → M S A
return a s = (done a, s)

-- A call that returns has gone through its first step.
pub and_then-done {ℓ} :
    {S A B : Type ℓ} (r : Outcome A × S) (f : A → M S B) {b : B}
    → (and_then r f).0 ≡ done b
    → (a : A) × (r.0 ≡ done a) × (and_then r f ≡ f a r.1)
and_then-done (done a, s) f h = (a, refl, refl)
and_then-done (blocked, s) f h = cc
and_then-done (threw, s) f h = cc
and_then-done (crashed, s) f h = cc

pub and_then_of_done {ℓ} :
    {S A B : Type ℓ} (r : Outcome A × S) (f : A → M S B) {a : A}
    → r.0 ≡ done a
    → and_then r f ≡ f a r.1
and_then_of_done (o, s) f h = ap (λ o'. and_then (o', s) f) h
