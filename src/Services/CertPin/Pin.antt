-- ===== src/Services/CertPin/Pin.antt =====
-- When the pinned verifier of src/services/x402_cert_pin.rs accepts a leaf certificate.
use jecp_server.Prelude.{
  ◌≡◌, ◌↔◌, Bool, true, inl, inr, ◌++◌, arith, Text, text_eq_iff, ok, Result-cases,
}
use jecp_server.Services.CertPin.{spki_tlv, verify_server_cert}
use jecp_server.Services.CertPin.Spki.{
  Certificate, IsEncodable, encode_certificate, spki_tlv-encode_certificate, tlv,
}

module _ (sha256 : Text → Text) (chain_ok : Text → Bool) where
  -- A certificate that is accepted has a good chain, and a key field whose hash is the pin.
  pub accepted-is_pinned :
      (pin leaf : Text)
      → verify_server_cert sha256 chain_ok pin leaf ≡ ok tt
      → (chain_ok leaf ≡ true) × ((spki : Text) × (spki_tlv leaf ≡ ok spki) × (sha256 spki ≡ pin))
  unfolding verify_server_cert
  accepted-is_pinned pin leaf h = elim (Result-cases (spki_tlv leaf)) [
    | inl (spki, e) ↦
        (ground (arith, e), (spki, e, ground (arith, e, text_eq_iff (sha256 spki) pin)))
    | inr (x, e) ↦ ground (arith, e)
  ]

  -- On an encodable certificate the verifier accepts exactly when the chain is good and the hash of
  -- the certificate's own key field is the pin.
  pub verify_server_cert_iff :
      (pin : Text) (c : Certificate) (rest : Text)
      → IsEncodable c
      → (verify_server_cert sha256 chain_ok pin (encode_certificate c ++ rest) ≡ ok tt)
        ↔ ((chain_ok (encode_certificate c ++ rest) ≡ true) × (sha256 (tlv c.public_key) ≡ pin))
  unfolding verify_server_cert
  verify_server_cert_iff pin c rest v = (
    λ h.
        ground (
          arith,
          spki_tlv-encode_certificate c v rest,
          text_eq_iff (sha256 (tlv c.public_key)) pin,
        ),
    λ h.
        ground (
          arith,
          spki_tlv-encode_certificate c v rest,
          text_eq_iff (sha256 (tlv c.public_key)) pin,
        ),
  )
