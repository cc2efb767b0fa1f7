-- ===== src/Services/Facilitator/Tests.antt =====
-- Runs of the client of src/services/x402_facilitator.rs.
use jecp_server.Prelude.{◌≡◌, refl, true, false, [], ◌∷◌, codes}
use jecp_server.Protocol.X402Types.{facilitator_unreachable, cert_pin_mismatch}
use jecp_server.Services.Facilitator.{
  TransportError, transport_failure, is_cert_pin_mismatch, contains, begins_with,
  trim_start_matches, strip_copies,
}

pinned_elsewhere : TransportError
pinned_elsewhere = record {
  is_timeout = false;
  is_connect = true;
  messages = codes "error sending request" ∷ codes "tls: x402: SPKI pin mismatch (host)" ∷ [];
}

pin_before_connect :
    transport_failure pinned_elsewhere 12 ≡ facilitator_unreachable cert_pin_mismatch
unfolding transport_failure is_cert_pin_mismatch contains begins_with pinned_elsewhere
pin_before_connect = refl

both_prefixes_off : trim_start_matches (codes "0x") (codes "0x0xab") ≡ codes "ab"
unfolding trim_start_matches strip_copies begins_with
both_prefixes_off = refl
