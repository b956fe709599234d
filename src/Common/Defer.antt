-- ===== src/Common/Defer.antt =====
-- The class `Defer` of servers/common/include/const.h.
use quick_chat.Prelude.{Outcome, done, blocked, threw, crashed, M}

-- The destructor runs the function when the scope is left, by a return or by an exception.
abbrev pub left {ℓ} : {S A : Type ℓ} → (S → S) → Outcome A × S → Outcome A × S
left func (done x, s) = (done x, func s)
left func (threw, s) = (threw, func s)
left func (blocked, s) = (blocked, s)
left func (crashed, s) = (crashed, s)

-- The rest of the scope in which a `Defer` is made.
abbrev pub defer {ℓ} : {S A : Type ℓ} → (S → S) → M S A → M S A
defer func body s = left func (body s)
