-- ===== src/Services/CertPin/Tests.antt =====
-- A small certificate, and a pinned verifier with a toy hash.
use jecp_server.Prelude.{
  ℕ, ◌+◌, ◌%◌, ◌≡◌, ◌↔◌, refl, Bool, true, none, [], ◌∷◌, ◌++◌, arith, Text, ok,
}
use jecp_server.Services.CertPin.{spki_tlv, verify_server_cert}
use jecp_server.Services.CertPin.Der.{encode_tlv, encode_length}
use jecp_server.Services.CertPin.Spki.{
  Tlv, Certificate, IsEncodable, encode_certificate, certificate_value, tbs_certificate,
  fields_from_serial, tlv, spki_tlv-encode_certificate,
}
use jecp_server.Services.CertPin.Pin.{verify_server_cert_iff}

abbrev field : ℕ → Tlv
field tag = record { tag = tag; value = 1 ∷ 2 ∷ [] }

abbrev certificate : Certificate
certificate = record {
  version = none;
  serial_number = field 2;
  signature = field 48;
  issuer = field 48;
  validity = field 48;
  subject = field 48;
  public_key = field 48;
  extensions = [];
  signature_value = [];
}

certificate-IsEncodable : IsEncodable certificate
unfolding encode_certificate certificate_value tbs_certificate fields_from_serial encode_tlv
    encode_length
certificate-IsEncodable = record { serial_tag = λ e. omega arith; fits = omega arith }

-- It forgets all but the sum of the first two bytes.
abbrev toy_hash : Text → Text
toy_hash [] = []
toy_hash (a ∷ []) = a ∷ []
toy_hash (a ∷ b ∷ bs) = (a + b) % 256 ∷ []

abbrev any_chain : Text → Bool
any_chain leaf = true

spki_tlv-encode_certificate_example :
    spki_tlv (encode_certificate certificate ++ []) ≡ ok (tlv (field 48))
spki_tlv-encode_certificate_example =
    spki_tlv-encode_certificate certificate certificate-IsEncodable []

verify_server_cert_iff_example :
    (verify_server_cert toy_hash any_chain (50 ∷ []) (encode_certificate certificate ++ []) ≡ ok tt)
    ↔ ((any_chain (encode_certificate certificate ++ []) ≡ true)
        × (toy_hash (tlv (field 48)) ≡ 50 ∷ []))
verify_server_cert_iff_example =
    verify_server_cert_iff toy_hash any_chain (50 ∷ []) certificate [] certificate-IsEncodable

is_accepted :
    verify_server_cert toy_hash any_chain (50 ∷ []) (encode_certificate certificate ++ []) ≡ ok tt
unfolding encode_tlv encode_length
is_accepted = verify_server_cert_iff_example.1 (refl, refl)
