-- ===== src/Common/Singleton.antt =====
-- servers/common/include/Singleton.h. `call_once` runs the constructor under its flag, so that the
-- calls of `GetInstance` follow one another, on however many threads they are made.
use quick_chat.Prelude.{Option, none, some, ◌≡◌, ap, Outcome, done, blocked, threw, crashed, M}

-- The constructor has ended. One that throws leaves the flag as it was.
unfoldable pub store_instance {ℓ} : {W A : Type ℓ} → Outcome A × W → Outcome A × (Option A × W)
store_instance (done x, w) = (done x, (some x, w))
store_instance (blocked, w) = (blocked, (none, w))
store_instance (threw, w) = (threw, (none, w))
store_instance (crashed, w) = (crashed, (none, w))

-- `GetInstance`: `new_t` is the constructor, on what it reads and changes; the state holds `instance_`.
unfoldable pub get_instance {ℓ} : {W A : Type ℓ} → M W A → M (Option A × W) A
unfolding store_instance
get_instance new_t (some x, w) = (done x, (some x, w))
get_instance new_t (none, w) = store_instance (new_t w)

pub get_instance_made {ℓ} :
    {W A : Type ℓ} {x : A} (new_t : M W A) (i : Option A) (w : W)
    → i ≡ none
    → (new_t w).0 ≡ done x
    → get_instance new_t (i, w) ≡ (done x, (some x, (new_t w).1))
unfolding get_instance store_instance
get_instance_made {x} new_t i w h k =
    rw h (ap (λ (r : Outcome _). store_instance (r, (new_t w).1)) k)

-- The flag is not set: the next call runs the constructor again.
pub get_instance_threw {ℓ} :
    {W A : Type ℓ} (new_t : M W A) (i : Option A) (w : W)
    → i ≡ none
    → (new_t w).0 ≡ threw
    → get_instance new_t (i, w) ≡ (threw, (none, (new_t w).1))
unfolding get_instance store_instance
get_instance_threw new_t i w h k = rw h (ap (λ (r : Outcome _). store_instance (r, (new_t w).1)) k)
