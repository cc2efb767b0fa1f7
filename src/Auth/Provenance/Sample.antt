-- ===== src/Auth/Provenance/Sample.antt =====
-- src/auth/agent.rs: a signed provenance to run the callers on, with a toy code in place of HMAC-SHA256.
use jecp_server.Prelude.{◌≡◌, refl, some, [], Text, text_eq, codes, ok}
use jecp_server.Protocol.Decimal.{parse_nonempty}
use jecp_server.Auth.Agent.{constant_time_eq}
use jecp_server.Auth.Provenance.{verify_provenance_v2, verify_provenance, is_v2}

abbrev pub toy_hmac : Text → Text → Text
toy_hmac key msg = codes "00112233445566778899aabbccddeeff00112233445566778899aabbccddeeff"

abbrev pub nonce : Text
nonce = codes "0123456789abcdef"

abbrev pub claimed : Text
claimed =
    codes
      "v2:1000:0123456789abcdef:00112233445566778899aabbccddeeff00112233445566778899aabbccddeeff"

pub claimed_verifies :
    verify_provenance toy_hmac 1000 [] [] (codes "agent") (codes "k") claimed
    ≡ ok (some (1000, nonce))
unfolding verify_provenance is_v2 verify_provenance_v2 parse_nonempty constant_time_eq text_eq
claimed_verifies = refl
