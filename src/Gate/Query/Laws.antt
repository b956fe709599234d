-- ===== src/Gate/Query/Laws.antt =====
-- What `PreParseGetParam` makes of a query that a client has encoded with `UrlEncode`.
use quick_chat.Prelude.Assoc.{insert}
use quick_chat.Prelude.{
  ℕ, zero, suc, ◌+◌, ◌<◌, List, [], ◌∷◌, ◌++◌, none, some, ◌≡◌, ◌≢◌, refl, ap, ◌∙◌, ◌⊎◌, inl, inr,
  arith, Bytes, bytes_key, take, drop, length, length-append, length-drop, take-length-append,
  drop-length-append, All, All-append, IsByte, Lacks, Option-cases,
}
use quick_chat.Gate.Url.{url_encode}
use quick_chat.Gate.Url.RoundTrip.{url_decode-url_encode, IsQuerySafe, url_encode-IsQuerySafe}
use quick_chat.Gate.Query.{
  Params, find, put_pair, Scan, ended, assert_failed, out_of_fuel, scan_pairs, last_pair, finish,
  parse_target,
}

find-none : (b : ℕ) (s : Bytes) → Lacks b s → find b s ≡ none
unfolding find
find-none b [] h = refl
find-none b (c ∷ s) h = ground (arith, find-none b s h.1)

find-append : (b : ℕ) (s t : Bytes) → Lacks b s → find b (s ++ b ∷ t) ≡ some (length s)
unfolding find
find-append b [] t h = ground arith
find-append b (c ∷ s) t h = ground (arith, find-append b s t h.1)

-- A position that is found lies in the text.
find-lt-length : (b : ℕ) (s : Bytes) (i : ℕ) → find b s ≡ some i → i < length s
unfolding find
find-lt-length b [] i h = cc
find-lt-length b (c ∷ s) i h = elim (Option-cases (find b s)) [
  | inl e ↦ ground arith
  | inr (k, e) ↦ ground (arith, find-lt-length b s k e)
]

abbrev pub encode_pair : Bytes × Bytes → Bytes
encode_pair (k, v) = url_encode k ++ b'=' ∷ url_encode v

-- The query that a client sends for these parameters.
pub encode_query : List (Bytes × Bytes) → Bytes
encode_query [] = []
encode_query (p ∷ []) = encode_pair p
encode_query (p ∷ q ∷ ps) = encode_pair p ++ b'&' ∷ encode_query (q ∷ ps)

-- The parameters written into the map one after another.
pub store_all : List (Bytes × Bytes) → Params → Params
store_all [] m = m
store_all ((k, v) ∷ ps) m = store_all ps (insert k v m)

abbrev pub IsBytePair : Bytes × Bytes → Type 0
IsBytePair (k, v) = All IsByte k × All IsByte v

Lacks-eq : (s : Bytes) → All IsQuerySafe s → Lacks b'=' s
Lacks-eq [] h = tt
Lacks-eq (c ∷ s) h = (h.0.1, Lacks-eq s h.1)

Lacks-amp : (s : Bytes) → All IsQuerySafe s → Lacks b'&' s
Lacks-amp [] h = tt
Lacks-amp (c ∷ s) h = (h.0.0, Lacks-amp s h.1)

encode_pair-Lacks : (p : Bytes × Bytes) → IsBytePair p → Lacks b'&' (encode_pair p)
encode_pair-Lacks (k, v) (hk, hv) =
    All-append _ (url_encode k) _ (Lacks-amp _ (url_encode-IsQuerySafe k hk))
      (omega arith, Lacks-amp _ (url_encode-IsQuerySafe v hv))

put_pair-encode_pair :
    (p : Bytes × Bytes) (params : Params)
    → IsBytePair p
    → put_pair (encode_pair p) params ≡ some (insert p.0 p.1 params)
unfolding put_pair
put_pair-encode_pair (k, v) params (hk, hv) =
    let a : Bytes = url_encode k in
    let b : Bytes = url_encode v in
    ground (
      arith,
      find-append b'=' a b (Lacks-eq a (url_encode-IsQuerySafe k hk)),
      take-length-append a (b'=' ∷ b),
      drop-length-append a b'=' b,
      url_decode-url_encode k hk,
      url_decode-url_encode v hv,
    )

append-ne-nil : (s : Bytes) (c : ℕ) (t : Bytes) → s ++ c ∷ t ≢ []
append-ne-nil [] c t h = cc
append-ne-nil (x ∷ s) c t h = cc

last_pair-put_pair : (s : Bytes) (m : Params) → s ≢ [] → last_pair s m ≡ put_pair s m
unfolding last_pair
last_pair-put_pair [] m h = absurd (h refl)
last_pair-put_pair (c ∷ s) m h = refl

scan_last :
    (fuel : ℕ) (s : Bytes) (m : Params) → find b'&' s ≡ none → scan_pairs (suc fuel) s m ≡ ended s m
unfolding scan_pairs
scan_last fuel s m e = ground arith

scan_next :
    (fuel : ℕ) (s t : Bytes) (m m' : Params)
    → Lacks b'&' s
    → put_pair s m ≡ some m'
    → scan_pairs (suc fuel) (s ++ b'&' ∷ t) m ≡ scan_pairs fuel t m'
unfolding scan_pairs
scan_next fuel s t m m' h e =
    ground
      (arith, find-append b'&' s t h, take-length-append s (b'&' ∷ t), drop-length-append s b'&' t)

scan-encode_query :
    (fuel : ℕ) (p : Bytes × Bytes) (ps : List (Bytes × Bytes)) (m : Params)
    → length ps < fuel
    → All IsBytePair (p ∷ ps)
    → finish (scan_pairs fuel (encode_query (p ∷ ps)) m) ≡ some (store_all (p ∷ ps) m)
unfolding encode_query store_all
scan-encode_query zero p ps m h b = elim h [ ]
scan-encode_query (suc fuel) (k, v) [] m h (b, _) =
    unfold finish in
    rw (scan_last fuel (encode_pair (k, v)) m (find-none _ _ (encode_pair-Lacks (k, v) b))) (
      last_pair-put_pair _ m (append-ne-nil (url_encode k) b'=' (url_encode v))
      ∙ put_pair-encode_pair (k, v) m b)
scan-encode_query (suc fuel) (k, v) (q ∷ ps) m h (b, bs) =
    scan_whole ∙ scan-encode_query fuel q ps (insert k v m) (omega arith) bs
  where
    scan_whole :
        finish (scan_pairs (suc fuel) (encode_query ((k, v) ∷ q ∷ ps)) m)
        ≡ finish (scan_pairs fuel (encode_query (q ∷ ps)) (insert k v m))
    scan_whole = ap finish (
        scan_next fuel (encode_pair (k, v)) (encode_query (q ∷ ps)) m _ (encode_pair-Lacks (k, v) b)
          (put_pair-encode_pair (k, v) m b))

length-encode_query :
    (p : Bytes × Bytes) (ps : List (Bytes × Bytes)) → length ps < length (encode_query (p ∷ ps))
unfolding encode_query
length-encode_query (k, v) [] = omega (arith, length-append (url_encode k) (b'=' ∷ url_encode v))
length-encode_query (k, v) (q ∷ ps) = omega (
  arith,
  length-append (encode_pair (k, v)) (b'&' ∷ encode_query (q ∷ ps)),
  length-encode_query q ps,
)

-- A target made of a path with no `?` and the encoded query of one or more pairs of byte strings
-- is taken apart into that path and the map that holds the pairs, a later pair with the same key
-- replacing an earlier one.
pub parse_target-encode_query :
    (path : Bytes) (p : Bytes × Bytes) (ps : List (Bytes × Bytes)) (m : Params)
    → Lacks b'?' path
    → All IsBytePair (p ∷ ps)
    → parse_target (path ++ b'?' ∷ encode_query (p ∷ ps)) m
      ≡ some (record { get_url = path; get_params = store_all (p ∷ ps) m })
unfolding parse_target
parse_target-encode_query path p ps m h b =
    let query : Bytes = encode_query (p ∷ ps) in
    ground (
      arith,
      find-append b'?' path query h,
      take-length-append path (b'?' ∷ query),
      drop-length-append path b'?' query,
      scan-encode_query (suc (length query)) p ps m (omega (arith, length-encode_query p ps)) b,
    )

scan-ne-out_of_fuel :
    (fuel : ℕ) (s : Bytes) (m : Params) → length s < fuel → scan_pairs fuel s m ≢ out_of_fuel
unfolding scan_pairs
scan-ne-out_of_fuel zero s m h = elim h [ ]
scan-ne-out_of_fuel (suc fuel) s m h = elim (Option-cases (find b'&' s)) [
  | inl e ↦ rw (e, scan_pairs) (λ k. cc)
  | inr (i, e) ↦ elim (Option-cases (put_pair (take i s) m)) [
    | inl e' ↦ ground arith
    | inr (m', e') ↦ ground (
      arith,
      scan-ne-out_of_fuel fuel (drop (i + 1) s) m',
      length-drop (i + 1) s,
      find-lt-length b'&' s i e,
    )
  ]
]

-- The loop over the pairs ends for every query: one round more than the query has bytes is fuel
-- enough, so `parse_target` fails only where an assertion does.
scan_pairs_total :
    (query : Bytes) (m : Params)
    → (scan_pairs (suc (length query)) query m ≡ assert_failed)
      ⊎ ((rest : Bytes) × (m' : Params) × (scan_pairs (suc (length query)) query m ≡ ended rest m'))
scan_pairs_total query m =
    classify _ (scan-ne-out_of_fuel (suc (length query)) query m (omega arith))
  where
    classify :
        (r : Scan)
        → r ≢ out_of_fuel
        → (r ≡ assert_failed) ⊎ ((rest : Bytes) × (m' : Params) × (r ≡ ended rest m'))
    classify (ended rest m') h = inr (rest, m', refl)
    classify assert_failed h = inl refl
    classify out_of_fuel h = absurd (h refl)
