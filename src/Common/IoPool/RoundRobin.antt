-- ===== src/Common/IoPool/RoundRobin.antt =====
-- The order of the services of servers/common/src/AsioIOServicePool.cpp.
use quick_chat.Prelude.{ℕ, zero, suc, ◌+◌, ◌%◌, ◌<◌, some, ◌≡◌, refl, sym, ap, ◌∙◌, arith}
use native.Mathlib.Nat.{mod-lt, mod-eq_of_lt, mod-add-mod, zero-add}
use quick_chat.Common.IoPool.{IoServicePool, make_io_pool, get_io_service}

-- The n-th call after some state, its answer and the state that it leaves.
unfoldable pub after_calls : ℕ → IoServicePool → IoServicePool
after_calls zero p = p
after_calls (suc n) p = after_calls n (get_io_service p).1

pub after_calls-suc :
    (n : ℕ) (p : IoServicePool) → (get_io_service (after_calls n p)).1 ≡ after_calls (suc n) p
unfolding after_calls
after_calls-suc zero p = refl
after_calls-suc (suc n) p = after_calls-suc n (get_io_service p).1

next_lem :
    (p : IoServicePool)
    → p.next_io_service < p.size
    → (get_io_service p).1 ≡ record p { next_io_service = (p.next_io_service + 1) % p.size }
unfolding get_io_service
next_lem p h = grind arith

after_calls_lem :
    (n : ℕ) (p : IoServicePool)
    → p.next_io_service < p.size
    → after_calls n p ≡ record p { next_io_service = (p.next_io_service + n) % p.size }
unfolding after_calls
after_calls_lem zero p h = at_next p (p.next_io_service + 0) (omega arith) h
  where
    at_next :
        (q : IoServicePool) (n : ℕ)
        → n ≡ q.next_io_service
        → q.next_io_service < q.size
        → q ≡ record q { next_io_service = n % q.size }
    at_next q n e k =
        λ i. record q { next_io_service = (sym (mod-eq_of_lt k) ∙ ap (λ m. m % q.size) (sym e)) i }
after_calls_lem (suc n) p h =
    let one : ℕ = (p.next_io_service + 1) % p.size in
    let q : IoServicePool = record p { next_io_service = one } in
    let sum : (one + n) % p.size ≡ (p.next_io_service + suc n) % p.size =
      mod-add-mod (p.next_io_service + 1) p.size n ∙ ap (λ m. m % p.size) (omega arith) in
    ap (after_calls n) (next_lem p h)
    ∙ after_calls_lem n q (mod-lt _ (omega arith))
    ∙ (λ i. record p { next_io_service = sum i })

-- The n-th call on a new pool of one or more services, counted from 0, gives service number n
-- modulo their number: the services are used in turn, and no call reads past the vector.
pub get_io_service_lem :
    (size n : ℕ)
    → 0 < size
    → (get_io_service (after_calls n (make_io_pool size))).0 ≡ some (n % size)
unfolding make_io_pool
get_io_service_lem size n h =
    ap (λ p. (get_io_service p).0) (after_calls_lem n (make_io_pool size) h) ∙ in_range
  where
    in_range :
        (get_io_service (record (make_io_pool size) { next_io_service = (0 + n) % size })).0
        ≡ some (n % size)
    in_range = unfold get_io_service in ground (arith, ap (λ m. m % size) (zero-add n), mod-lt n h)
