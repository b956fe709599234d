-- ===== src/Gate/Url/RoundTrip.antt =====
-- `UrlDecode` after `UrlEncode`, and the bytes that an encoded text holds.
use quick_chat.Prelude.{
  ℕ, ◌/◌, ◌%◌, ◌<◌, [], ◌∷◌, ◌++◌, some, ◌≡◌, ◌≢◌, refl, sym, append-nil, append_assoc, arith,
  Bytes, All, All-append, IsByte,
}
use quick_chat.Gate.Url.{
  to_hex, from_hex, encode_char, encode_loop, url_encode, from_digits, decode_loop, url_decode,
}

from_hex-to_hex : (x : ℕ) → x < 16 → from_hex (to_hex x) ≡ some x
unfolding from_hex to_hex
from_hex-to_hex x h = ground arith

from_digits-to_hex : (c : ℕ) → IsByte c → from_digits (to_hex (c / 16)) (to_hex (c % 16)) ≡ some c
unfolding from_digits
from_digits-to_hex c h =
    ground (arith, from_hex-to_hex (c / 16) (omega arith), from_hex-to_hex (c % 16) (omega arith))

decode_plain :
    (c : ℕ) (s out : Bytes)
    → c ≢ b'%'
    → c ≢ b'+'
    → decode_loop (c ∷ s) out ≡ decode_loop s (out ++ c ∷ [])
unfolding decode_loop
decode_plain c [] out h k = ground arith
decode_plain c (x ∷ []) out h k = ground arith
decode_plain c (x ∷ y ∷ s) out h k = ground arith

decode_plus : (s out : Bytes) → decode_loop (b'+' ∷ s) out ≡ decode_loop s (out ++ b' ' ∷ [])
unfolding decode_loop
decode_plus [] out = refl
decode_plus (x ∷ []) out = refl
decode_plus (x ∷ y ∷ s) out = refl

decode_escape :
    (h l b : ℕ) (s out : Bytes)
    → from_digits h l ≡ some b
    → decode_loop (b'%' ∷ h ∷ l ∷ s) out ≡ decode_loop s (out ++ b ∷ [])
unfolding decode_loop
decode_escape h l b s out e = rw (e, decode_loop) refl

decode-encode_char :
    (c : ℕ) (s out : Bytes)
    → IsByte c
    → decode_loop (encode_char c ++ s) out ≡ decode_loop s (out ++ c ∷ [])
unfolding encode_char
decode-encode_char c s out h = ground (
  arith,
  decode_plain c s out,
  decode_plus s out,
  decode_escape (to_hex (c / 16)) (to_hex (c % 16)) c s out (from_digits-to_hex c h),
)

-- all that `UrlEncode` writes, as a recursion with no accumulator
encoded : Bytes → Bytes
encoded [] = []
encoded (c ∷ s) = encode_char c ++ encoded s

encode_loop-encoded : (s out : Bytes) → encode_loop s out ≡ out ++ encoded s
unfolding encode_loop encoded
encode_loop-encoded [] out = sym (append-nil out)
encode_loop-encoded (c ∷ s) out = simp (encode_loop-encoded s, append_assoc)

url_encode-encoded : (s : Bytes) → url_encode s ≡ encoded s
unfolding url_encode
url_encode-encoded s = encode_loop-encoded s []

decode-encoded : (s out : Bytes) → All IsByte s → decode_loop (encoded s) out ≡ some (out ++ s)
unfolding encoded
decode-encoded [] out h = unfold decode_loop in rw append-nil
decode-encoded (c ∷ s) out (hc, hs) =
    rw (decode-encode_char c (encoded s) out hc, decode-encoded s _ hs, append_assoc)

-- Decoding an encoded text gives the text back, for every text of bytes; in particular no assertion
-- fails on it.
pub url_decode-url_encode : (s : Bytes) → All IsByte s → url_decode (url_encode s) ≡ some s
unfolding url_decode
url_decode-url_encode s h = rw (url_encode-encoded s) (decode-encoded s [] h)

-- A byte that separates nothing in a query.
abbrev pub IsQuerySafe : ℕ → Type 0
IsQuerySafe c = (c ≢ b'&') × (c ≢ b'=') × (c ≢ b'?') × (c ≢ b'#') × (c ≢ b' ')

to_hex-IsQuerySafe : (x : ℕ) → x < 16 → IsQuerySafe (to_hex x)
unfolding to_hex
to_hex-IsQuerySafe x h = ground arith

encode_char-IsQuerySafe : (c : ℕ) → IsByte c → All IsQuerySafe (encode_char c)
unfolding encode_char
encode_char-IsQuerySafe c h =
    ground
      (arith, to_hex-IsQuerySafe (c / 16) (omega arith), to_hex-IsQuerySafe (c % 16) (omega arith))

encoded-IsQuerySafe : (s : Bytes) → All IsByte s → All IsQuerySafe (encoded s)
unfolding encoded
encoded-IsQuerySafe [] h = tt
encoded-IsQuerySafe (c ∷ s) (hc, hs) =
    All-append _ (encode_char c) (encoded s) (encode_char-IsQuerySafe c hc)
      (encoded-IsQuerySafe s hs)

-- An encoded text of bytes holds none of the bytes `&`, `=`, `?`, `#` and space.
pub url_encode-IsQuerySafe : (s : Bytes) → All IsByte s → All IsQuerySafe (url_encode s)
url_encode-IsQuerySafe s h = rw (url_encode-encoded s) (encoded-IsQuerySafe s h)
