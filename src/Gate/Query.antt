-- ===== src/Gate/Query.antt =====
-- servers/GateServer/src/HttpConnection.cpp: `PreParseGetParam`.
use quick_chat.Prelude.Assoc.{insert}
use quick_chat.Prelude.{
  ℕ, zero, suc, ◌+◌, Bool, true, false, List, [], ◌∷◌, ◌++◌, Option, none, some, ◌≡◌, refl, Bytes,
  codes, bytes_key, bytes_eq, ◌==◌, if◌then◌else◌, take, drop, length,
}
use quick_chat.Gate.Url.{url_decode}
pub mod Laws

abbrev pub Params : Type 0
Params = List (Bytes × Bytes)

-- `std::string::find(char)`; `none` is `npos`.
unfoldable pub find : ℕ → Bytes → Option ℕ
find b [] = none
find b (c ∷ s) =
    let rest = find b s in
    if c == b then some 0 else elim rest [ none ↦ none | some i ↦ some (suc i) ]

-- `none` is a failed assertion in `UrlDecode`.
pub put_pair : Bytes → Params → Option Params
put_pair pair params = elim (find b'=' pair) [
  | none ↦ some params
  | some eq_pos ↦ elim (url_decode (take eq_pos pair)) [
    | none ↦ none
    | some key ↦ elim (url_decode (drop (eq_pos + 1) pair)) [
      | none ↦ none
      | some value ↦ some (insert key value params)
    ]
  ]
]

-- The `while` loop, on fuel: the rest of `query_string` and the parameters so far.
pub data Scan : Type 0 where
  ended : Bytes → Params → Scan
  assert_failed out_of_fuel : Scan

pub scan_pairs : ℕ → Bytes → Params → Scan
scan_pairs zero query params = out_of_fuel
scan_pairs (suc fuel) query params = elim (find b'&' query) [
  | none ↦ ended query params
  | some p ↦ elim (put_pair (take p query) params) [
    | none ↦ assert_failed
    | some params' ↦ scan_pairs fuel (drop (p + 1) query) params'
  ]
]

-- The last pair, which no `&` ends.
pub last_pair : Bytes → Params → Option Params
unfolding put_pair
last_pair [] params = some params
last_pair (c ∷ s) params = put_pair (c ∷ s) params

pub finish : Scan → Option Params
unfolding last_pair
finish (ended query params) = last_pair query params
finish assert_failed = none
finish out_of_fuel = none

pub record Target : Type 0 where
  pub get_url : Bytes
  pub get_params : Params

unfoldable pub parse_target : Bytes → Params → Option Target
unfolding finish scan_pairs
parse_target uri params = elim (find b'?' uri) [
  | none ↦ some (record { get_url = uri; get_params = params })
  | some q ↦
      let query = drop (q + 1) uri in
      elim (finish (scan_pairs (suc (length query)) query params)) [
        | none ↦ none
        | some params' ↦ some (record { get_url = take q uri; get_params = params' })
      ]
]
