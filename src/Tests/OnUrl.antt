-- ===== src/Tests/OnUrl.antt =====
-- Gate.Url and Gate.Query at small inputs.
use quick_chat.Prelude.Assoc.{insert}
use quick_chat.Prelude.{
  List, [], ◌∷◌, ◌++◌, none, some, ◌≡◌, refl, arith, Bytes, bytes_key, bytes_eq, codes,
}
use quick_chat.Gate.Url.{url_encode, url_decode}
use quick_chat.Gate.Url.RoundTrip.{url_decode-url_encode}
use quick_chat.Gate.Query.{find, parse_target}
use quick_chat.Gate.Query.Laws.{encode_query, store_all, parse_target-encode_query}

encode_test : url_encode (codes "a b/~") ≡ codes "a+b%2F~"
unfolding url_encode
encode_test = refl

decode_test : url_decode (codes "a+b%2f%7E") ≡ some (codes "a b/~")
unfolding url_decode
decode_test = refl

decode_short : url_decode (codes "a%2") ≡ none
unfolding url_decode
decode_short = refl

two_params :
    parse_target (codes "/t?a=1&junk&b=x+y&a=2") []
    ≡ some (record {
      get_url = codes "/t";
      get_params = (codes "a", codes "2") ∷ (codes "b", codes "x y") ∷ [];
    })
unfolding parse_target find insert url_decode bytes_eq
two_params = refl

url_decode-url_encode_example : url_decode (url_encode (codes "a b&c")) ≡ some (codes "a b&c")
url_decode-url_encode_example = url_decode-url_encode (codes "a b&c") (omega arith)

abbrev pairs : List (Bytes × Bytes)
pairs = (codes "k&", codes "=") ∷ (codes "b", codes "x y") ∷ []

parse_target-encode_query_example :
    parse_target (codes "/t" ++ b'?' ∷ encode_query pairs) []
    ≡ some (record { get_url = codes "/t"; get_params = store_all pairs [] })
parse_target-encode_query_example =
    parse_target-encode_query (codes "/t") (codes "k&", codes "=") ((codes "b", codes "x y") ∷ [])
      [] (omega arith) (omega arith)

abbrev bad_query : Bytes
bad_query = codes "a=%zz&b=1"
