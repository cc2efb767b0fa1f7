-- ===== src/Services/CertPin/Spki.antt =====
-- What the certificate walk of src/services/x402_cert_pin.rs extracts, against an encoder of
-- certificates that is written independently of it.
use jecp_server.Prelude.{
  ℕ, ◌<◌, ◌≡◌, ◌≢◌, Option, none, some, [], ◌++◌, arith, Text, length, length-append, Result, ok,
  ◌>>=◌,
}
use jecp_server.Services.CertPin.{DerError, der_take_tlv, spki_tlv, skip_version, der_skip_tlv}
use jecp_server.Services.CertPin.Der.{
  encode_tlv, der_skip_tlv-encode_tlv, der_take_tlv-encode_tlv, der_sequence-encode_tlv,
  length-encode_tlv-gt,
}

pub record Tlv : Type 0 where
  pub tag : ℕ
  pub value : Text

-- A version 1 certificate has no version field; a version 3 certificate has it under tag 0xA0.
pub record Certificate : Type 0 where
  pub version : Option Text
  pub serial_number : Tlv
  pub signature : Tlv
  pub issuer : Tlv
  pub validity : Tlv
  pub subject : Tlv
  pub public_key : Tlv
  pub extensions : Text
  pub signature_value : Text

abbrev pub tlv : Tlv → Text
tlv f = encode_tlv f.tag f.value

abbrev encode_version : Option Text → Text
encode_version none = []
encode_version (some v) = encode_tlv 0xA0 v

unfoldable pub fields_from_serial : Certificate → Text
fields_from_serial c =
    tlv c.serial_number
    ++ (tlv c.signature
        ++ (tlv c.issuer
            ++ (tlv c.validity ++ (tlv c.subject ++ (tlv c.public_key ++ c.extensions)))))

unfoldable pub tbs_certificate : Certificate → Text
tbs_certificate c = encode_version c.version ++ fields_from_serial c

unfoldable pub certificate_value : Certificate → Text
certificate_value c = encode_tlv 0x30 (tbs_certificate c) ++ c.signature_value

unfoldable pub encode_certificate : Certificate → Text
encode_certificate c = encode_tlv 0x30 (certificate_value c)

-- The serial number is no version field, and every length fits the four bytes that the walker reads.
pub record IsEncodable (c : Certificate) : Type 0 where
  pub serial_tag : c.serial_number.tag ≢ 0xA0
  pub fits : length (encode_certificate c) < 4294967296

module _ (c : Certificate) (v : IsEncodable c) where
  value-fits : length (certificate_value c) < 4294967296
  unfolding encode_certificate
  value-fits = omega (arith, v.fits, length-encode_tlv-gt 0x30 (certificate_value c))

  tbs-fits : length (tbs_certificate c) < 4294967296
  unfolding certificate_value
  tbs-fits = omega (
    arith,
    value-fits,
    length-encode_tlv-gt 0x30 (tbs_certificate c),
    length-append (encode_tlv 0x30 (tbs_certificate c)) c.signature_value,
  )

  fields-fit : length (fields_from_serial c) < 4294967296
  unfolding tbs_certificate
  fields-fit =
      omega (arith, tbs-fits, length-append (encode_version c.version) (fields_from_serial c))

module _ (f : Tlv) (rest : Text) (h : length (tlv f ++ rest) < 4294967296) where
  value-fits_of : length f.value < 4294967296
  value-fits_of = omega (arith, h, length-append (tlv f) rest, length-encode_tlv-gt f.tag f.value)

  rest-fits : length rest < 4294967296
  rest-fits = omega (arith, h, length-append (tlv f) rest)

  skip-field : der_skip_tlv (tlv f ++ rest) ≡ ok rest
  skip-field = der_skip_tlv-encode_tlv f.tag f.value rest value-fits_of

  take-field : der_take_tlv (tlv f ++ rest) ≡ ok (tlv f)
  take-field = der_take_tlv-encode_tlv f.tag f.value rest value-fits_of

-- The walk from the serial number to the key.
five_skips : Text → Result DerError Text
five_skips cur = do
  cur ← der_skip_tlv cur
  cur ← der_skip_tlv cur
  cur ← der_skip_tlv cur
  cur ← der_skip_tlv cur
  cur ← der_skip_tlv cur
  der_take_tlv cur

module _ (c : Certificate) (h : length (fields_from_serial c) < 4294967296) where
  five_skips-fields : five_skips (fields_from_serial c) ≡ ok (tlv c.public_key)
  unfolding five_skips fields_from_serial
  five_skips-fields =
      let r₅ = tlv c.public_key ++ c.extensions in
      let r₄ = tlv c.subject ++ r₅ in
      let r₃ = tlv c.validity ++ r₄ in
      let r₂ = tlv c.issuer ++ r₃ in
      let r₁ = tlv c.signature ++ r₂ in
      let h₁ = rest-fits c.serial_number r₁ h in
      let h₂ = rest-fits c.signature r₂ h₁ in
      let h₃ = rest-fits c.issuer r₃ h₂ in
      let h₄ = rest-fits c.validity r₄ h₃ in
      let h₅ = rest-fits c.subject r₅ h₄ in
      rw (skip-field c.serial_number r₁ h) (
        rw (skip-field c.signature r₂ h₁) (
          rw (skip-field c.issuer r₃ h₂) (
            rw (skip-field c.validity r₄ h₃)
              (rw (skip-field c.subject r₅ h₄) (take-field c.public_key c.extensions h₅)))))

skip_version-encode_version :
    (version : Option Text) (serial : Tlv) (rest : Text)
    → serial.tag ≢ 0xA0
    → length (encode_version version ++ (tlv serial ++ rest)) < 4294967296
    → skip_version (encode_version version ++ (tlv serial ++ rest)) ≡ ok (tlv serial ++ rest)
unfolding skip_version encode_tlv
skip_version-encode_version none serial rest tag h = ground arith
skip_version-encode_version (some w) serial rest tag h =
    der_skip_tlv-encode_tlv 0xA0 w (tlv serial ++ rest)
      (value-fits_of (record { tag = 0xA0; value = w }) (tlv serial ++ rest) h)

module _ (c : Certificate) (v : IsEncodable c) where
  skip_version-tbs : skip_version (tbs_certificate c) ≡ ok (fields_from_serial c)
  unfolding tbs_certificate fields_from_serial
  skip_version-tbs =
      skip_version-encode_version c.version c.serial_number _ v.serial_tag (tbs-fits c v)

  -- From every encodable certificate, with or without a version field, and whatever follows it, the
  -- walk takes the bytes of the public key field.
  pub spki_tlv-encode_certificate :
      (rest : Text) → spki_tlv (encode_certificate c ++ rest) ≡ ok (tlv c.public_key)
  unfolding spki_tlv encode_certificate certificate_value
  spki_tlv-encode_certificate rest =
      rw (der_sequence-encode_tlv (certificate_value c) rest (value-fits c v)) (
        rw (der_sequence-encode_tlv (tbs_certificate c) c.signature_value (tbs-fits c v))
          (rw skip_version-tbs (unfold five_skips in five_skips-fields c (fields-fit c v))))
