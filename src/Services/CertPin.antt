-- ===== src/Services/CertPin.antt =====
-- src/services/x402_cert_pin.rs: the DER walker and the certificate pin of the facilitator client.
-- Bytes are numbers below 256; a slice is a list. SHA-256 and the chain validator of rustls are
-- parameters.
pub mod Der
pub mod Spki
pub mod Pin
mod Tests
use jecp_server.Prelude.{
  ℕ, ◌+◌, ◌*◌, ◌%◌, ◌^◌, Bool, true, false, ◌||◌, List, [], ◌∷◌, Text, ltb, ◌==◌, text_eq,
  if◌then◌else◌, length, take, drop, Result, ok, err, ◌>>=◌, ◌>>◌,
}

pub data DerError : Type 0 where
  sequence_empty not_a_sequence sequence_truncated : DerError
  skip_empty skip_truncated take_empty take_truncated : DerError
  length_empty length_invalid length_truncated : DerError

-- `acc = (acc << 8) | b` in a 64-bit `usize`, with `b` a byte.
pub shift_in : ℕ → Text → ℕ
shift_in acc [] = acc
shift_in acc (b ∷ bs) = shift_in ((acc * 256) % 2 ^ 64 + b) bs

-- The length, and how many bytes it took. `first & 0x7F` is the remainder by 128.
pub der_length : Text → Result DerError (ℕ × ℕ)
unfolding shift_in
der_length [] = err length_empty
der_length (first ∷ rest) =
    let n = first % 128 in
    if ltb first 128
    then ok (first, 1)
    else if n == 0 || ltb 4 n
    then err length_invalid
    else if ltb (length (first ∷ rest)) (1 + n)
    then err length_truncated
    else ok (shift_in 0 (take n rest), 1 + n)

pub der_sequence : Text → Result DerError (Text × Text)
der_sequence [] = err sequence_empty
der_sequence (tag ∷ rest) =
    if tag == 0x30
    then (do
      (len, consumed) ← der_length rest
      let header = 1 + consumed
      let input = tag ∷ rest
      if ltb (length input) (header + len)
          then err sequence_truncated
          else ok (take len (drop header input), drop (header + len) input))
    else err not_a_sequence

pub der_skip_tlv : Text → Result DerError Text
der_skip_tlv [] = err skip_empty
der_skip_tlv (tag ∷ rest) = do
  (len, consumed) ← der_length rest
  let total = 1 + consumed + len
  let input = tag ∷ rest
  if ltb (length input) total then err skip_truncated else ok (drop total input)

pub der_take_tlv : Text → Result DerError Text
der_take_tlv [] = err take_empty
der_take_tlv (tag ∷ rest) = do
  (len, consumed) ← der_length rest
  let total = 1 + consumed + len
  let input = tag ∷ rest
  if ltb (length input) total then err take_truncated else ok (take total input)

-- The optional `[0] EXPLICIT version`.
pub skip_version : Text → Result DerError Text
skip_version [] = ok []
skip_version (tag ∷ rest) = if tag == 0xA0 then der_skip_tlv (tag ∷ rest) else ok (tag ∷ rest)

-- The SubjectPublicKeyInfo of a certificate, as its TLV bytes.
pub spki_tlv : Text → Result DerError Text
unfolding der_sequence der_skip_tlv der_take_tlv skip_version der_length
spki_tlv cert_der = do
  (cert_value, _) ← der_sequence cert_der
  (tbs_content, _) ← der_sequence cert_value
  cur ← skip_version tbs_content
  cur ← der_skip_tlv cur
  cur ← der_skip_tlv cur
  cur ← der_skip_tlv cur
  cur ← der_skip_tlv cur
  cur ← der_skip_tlv cur
  der_take_tlv cur

module _ (sha256 : Text → Text) where
  pub extract_spki_sha256 : Text → Result DerError Text
  extract_spki_sha256 cert_der = do spki ← spki_tlv cert_der; ok (sha256 spki)

pub data TlsError : Type 0 where
  chain : TlsError
  spki_extraction : DerError → TlsError
  pin_mismatch : TlsError

pub map_err : {A E F : Type 0} → (E → F) → Result E A → Result F A
map_err f (ok a) = ok a
map_err f (err e) = err (f e)

-- `verify_server_cert`: `chain_ok` is the verdict of the webpki verifier on the certificate.
module _ (sha256 : Text → Text) (chain_ok : Text → Bool) where
  pub verify_server_cert : Text → Text → Result TlsError (Unit {0})
  unfolding map_err extract_spki_sha256
  verify_server_cert pinned_spki_sha256 end_entity = do
    (if chain_ok end_entity then ok tt else err chain)
    spki_hash ← map_err spki_extraction (extract_spki_sha256 sha256 end_entity)
    (if text_eq spki_hash pinned_spki_sha256 then ok tt else err pin_mismatch)
