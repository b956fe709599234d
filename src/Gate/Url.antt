-- ===== src/Gate/Url.antt =====
-- servers/GateServer/src/HttpConnection.cpp: `ToHex`, `FromHex`, `UrlEncode` and `UrlDecode`.
-- A `std::string` is the list of its bytes. A failed `assert` is `none`: the build sets no NDEBUG.
pub mod RoundTrip
use quick_chat.Prelude.{
  ℕ, ◌+◌, ◌-◌, ◌*◌, ◌/◌, ◌%◌, Bool, true, false, ◌&&◌, ◌||◌, List, [], ◌∷◌, ◌++◌, Option, none,
  some, ◌≡◌, refl, Bytes, codes, ltb, leb, ◌==◌, if◌then◌else◌,
}

-- `unsigned char` wraps.
pub to_hex : ℕ → ℕ
to_hex x = if ltb 9 x then (x + 55) % 256 else (x + 48) % 256

pub from_hex : ℕ → Option ℕ
from_hex x =
    if leb b'A' x && leb x b'Z'
    then some (x - b'A' + 10)
    else if leb b'a' x && leb x b'z'
    then some (x - b'a' + 10)
    else if leb b'0' x && leb x b'9'
    then some (x - b'0')
    else none

-- `isalnum` in the "C" locale, which is the one that a program starts in.
abbrev pub isalnum : ℕ → Bool
isalnum c = (leb b'0' c && leb c b'9') || (leb b'A' c && leb c b'Z') || (leb b'a' c && leb c b'z')

-- What one round of `UrlEncode` appends.
pub encode_char : ℕ → Bytes
unfolding to_hex
encode_char c =
    if isalnum c || c == b'-' || c == b'_' || c == b'.' || c == b'~'
    then c ∷ []
    else if c == b' '
    then b'+' ∷ []
    else b'%' ∷ to_hex (c / 16) ∷ to_hex (c % 16) ∷ []

encode_loop : Bytes → Bytes → Bytes
encode_loop [] out = out
encode_loop (c ∷ s) out = encode_loop s (out ++ encode_char c)

unfoldable pub url_encode : Bytes → Bytes
unfolding encode_loop encode_char
url_encode s = encode_loop s []

-- A byte that is no `%`.
abbrev unplus : ℕ → ℕ
unplus c = if c == b'+' then b' ' else c

-- `%hl`: the two digits, added up in an `int` and cut to a `char`.
pub from_digits : ℕ → ℕ → Option ℕ
unfolding from_hex
from_digits h l = elim (from_hex h) [
  | none ↦ none
  | some high ↦ elim (from_hex l) [ none ↦ none | some low ↦ some ((high * 16 + low) % 256) ]
]

-- The clauses say how many bytes are left, as `assert(i + 2 < length)` does.
decode_loop : Bytes → Bytes → Option Bytes
decode_loop [] out = some out
decode_loop (c ∷ []) out = if c == b'%' then none else some (out ++ unplus c ∷ [])
decode_loop (c ∷ h ∷ []) out = elim (c == b'%') [
  | true ↦ none
  | false ↦ decode_loop (h ∷ []) (out ++ unplus c ∷ [])
]
decode_loop (c ∷ h ∷ l ∷ s) out = elim (c == b'%') [
  | true ↦ elim (from_digits h l) [ none ↦ none | some b ↦ decode_loop s (out ++ b ∷ []) ]
  | false ↦ decode_loop (h ∷ l ∷ s) (out ++ unplus c ∷ [])
]

unfoldable pub url_decode : Bytes → Option Bytes
unfolding decode_loop from_digits
url_decode s = decode_loop s []
