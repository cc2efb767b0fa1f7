-- ===== src/Auth/Provenance/Tests.antt =====
-- A signed text, with a toy code in place of HMAC-SHA256.
use jecp_server.Prelude.{false, ◌<◌, ◌≡◌, refl, Text, text_eq, codes, All, ok}
use jecp_server.Protocol.Decimal.{parse_nonempty}
use jecp_server.Auth.Agent.{constant_time_eq}
use jecp_server.Auth.Provenance.{verify_provenance_v2, is_ascii_hexdigit, drift, is_skewed}
use jecp_server.Auth.Provenance.Sound.{IsSigned, hexdigits-bytes, verify_provenance_v2-IsSigned}

abbrev toy_hmac : Text → Text → Text
toy_hmac key msg = codes "00112233445566778899aabbccddeeff00112233445566778899aabbccddeeff"

toy_bytes : (k m : Text) → All (λ x. x < 256) (toy_hmac k m)
unfolding is_ascii_hexdigit
toy_bytes k m = hexdigits-bytes (toy_hmac k m) refl

abbrev nonce : Text
nonce = codes "0123456789abcdef"

abbrev claimed : Text
claimed =
    codes
      "v2:1000:0123456789abcdef:00112233445566778899aabbccddeeff00112233445566778899aabbccddeeff"

accepted :
    verify_provenance_v2 toy_hmac 1100 (codes "key") (codes "agent") claimed 300 ≡ ok (1000, nonce)
unfolding verify_provenance_v2 parse_nonempty constant_time_eq text_eq
accepted = refl

verify_provenance_v2-IsSigned_example :
    IsSigned toy_hmac toy_bytes 1100 (codes "key") (codes "agent") claimed 300 1000 nonce
verify_provenance_v2-IsSigned_example =
    verify_provenance_v2-IsSigned toy_hmac toy_bytes 1100 (codes "key") (codes "agent") claimed 300
      1000 nonce accepted

in_time : is_skewed (drift 1100 1000) 300 ≡ false
unfolding is_skewed drift
in_time = refl
