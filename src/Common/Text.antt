-- ===== src/Common/Text.antt =====
-- The parts of the C++ library that turn numbers to text and back: `std::to_string` and `std::stoi`.
pub mod RoundTrip
pub mod Atoi
use quick_chat.Prelude.{
  ℕ, zero, suc, ◌+◌, ◌-◌, ◌*◌, ◌/◌, ◌%◌, ◌^◌, ltb, leb, ◌==◌, Bool, true, false, ◌&&◌, ◌||◌, List,
  [], ◌∷◌, Option, none, some, ◌≡◌, refl, Bytes, codes, ℤ, pos, negsuc, if◌then◌else◌,
}

-- The decimal digits, the last one first found; `n` rounds are enough.
pub digits : ℕ → ℕ → Bytes → Bytes
digits zero n out = out
digits (suc fuel) n out =
    let rest = digits fuel (n / 10) ((b'0' + n % 10) ∷ out) in
    if ltb n 10 then (b'0' + n) ∷ out else rest

pub decimal : ℕ → Bytes
unfolding digits
decimal n = digits (suc n) n []

-- `std::to_string(int)`
unfoldable pub to_string : ℤ → Bytes
unfolding decimal
to_string (pos n) = decimal n
to_string (negsuc n) = b'-' ∷ decimal (suc n)

pub is_digit : ℕ → Bool
is_digit c = leb b'0' c && leb c b'9'

-- The digits at the front.
pub scan : Bytes → ℕ → ℕ
unfolding is_digit
scan [] n = n
scan (c ∷ s) n = let rest = scan s (n * 10 + (c - b'0')) in if is_digit c then rest else n

-- `none` is an exception: no digit, or a value that no `int` holds.
pub magnitude : Bytes → Option ℕ
unfolding scan
magnitude [] = none
magnitude (c ∷ s) = if is_digit c then some (scan (c ∷ s) 0) else none

pub to_int : Bool → Option ℕ → Option ℤ
to_int negative none = none
to_int false (some n) = if ltb n (2 ^ 31) then some (pos n) else none
to_int true (some zero) = some (pos 0)
to_int true (some (suc n)) = if ltb n (2 ^ 31) then some (negsuc n) else none

after_spaces : Bytes → Option ℤ
unfolding to_int magnitude
after_spaces [] = none
after_spaces (c ∷ s) =
    if c == b'-'
    then to_int true (magnitude s)
    else if c == b'+'
    then to_int false (magnitude s)
    else to_int false (magnitude (c ∷ s))

-- `std::stoi`
unfoldable pub stoi : Bytes → Option ℤ
unfolding after_spaces
stoi [] = none
stoi (c ∷ s) =
    let rest = stoi s in if c == b' ' || (leb 9 c && leb c 13) then rest else after_spaces (c ∷ s)
