-- ===== src/Base64/Tests.antt =====
-- src/base64/base64.cpp at concrete inputs.
use libbundle.Prelude.{◌≡◌, refl, false, [], ◌∷◌, ◌++◌, codes, arith}
use libbundle.Base64.{base64_encode, base64_decode, accepts}
use libbundle.Base64.RoundTrip.{base64_decode-base64_encode}
use libbundle.Base64.Reference.{reference, base64_encode-reference, base64_decode_stops}

encode_man : base64_encode (codes "Man") ≡ codes "TWFu"
unfolding base64_encode
encode_man = refl

encode_two : base64_encode (codes "Ma") ≡ codes "TWE="
unfolding base64_encode
encode_two = refl

decode_one : base64_decode (codes "TQ==") ≡ codes "M"
unfolding base64_decode
decode_one = refl

base64_decode-base64_encode_example :
    base64_decode (base64_encode (255 ∷ 0 ∷ 128 ∷ 7 ∷ [])) ≡ 255 ∷ 0 ∷ 128 ∷ 7 ∷ []
base64_decode-base64_encode_example =
    base64_decode-base64_encode (255 ∷ 0 ∷ 128 ∷ 7 ∷ []) (omega arith) (omega arith)

base64_encode-reference_example : base64_encode (codes "pleasure") ≡ reference (codes "pleasure")
base64_encode-reference_example = base64_encode-reference (codes "pleasure") (omega arith)

refused : accepts b'!' ≡ false
unfolding accepts
refused = refl

base64_decode_stops_test :
    base64_decode (codes "TWFu" ++ b'!' ∷ codes "TWFu") ≡ base64_decode (codes "TWFu")
base64_decode_stops_test = base64_decode_stops (codes "TWFu") b'!' (codes "TWFu") refused
