-- ===== src/Services/Facilitator.antt =====
-- src/services/x402_facilitator.rs: the client of the facilitator. Parameters are the URL, hex, base64,
-- JSON and Ed25519 crates, and what the connection does with a request, with the time that it took.
pub mod Signed
mod Tests
use Prim.Native.String.{String}
use jecp_server.Prelude.{
  ℕ, ◌-◌, Bool, true, false, ◌&&◌, ◌||◌, not, Option, none, some, List, [], ◌∷◌, Text, codes, all,
  any, leb, ltb, ◌==◌, if◌then◌else◌, length, drop, Result, ok, err, guard, ok_or, ◌>>=◌, ◌>>◌,
  zero, suc,
}
use jecp_server.Protocol.X402Types.{
  PaymentPayload, PaymentRequirements, VerifyResponse, SettleResponse, X402Error, payment_invalid,
  settlement_timeout, facilitator_unreachable, facilitator_rejected, facilitator_slow,
  facilitator_5xx, facilitator_response_parse, url_join, cert_pin_mismatch, connection_refused,
  transport, signature_pin_mismatch, body_read,
}

pub data FacilitatorInitError : Type 0 where
  invalid_url invalid_pubkey invalid_cert_pin client_build tls_config : FacilitatorInitError

-- Which certificates the connection takes: those of the ordinary roots, or of the pin too.
pub data Tls : Type 0 where
  webpki : Tls
  pinned : Text → Tls

-- A response, with its body where it can be read to the end.
pub record Response : Type 0 where
  pub status : ℕ
  pub sig_header : Option Text
  pub body : Option Text

-- A transport error: its chain of messages, and what reqwest says of it.
pub record TransportError : Type 0 where
  pub is_timeout : Bool
  pub is_connect : Bool
  pub messages : List Text

pub data Endpoint : Type 0 where
  verify_path settle_path : Endpoint

-- What the connection does with a request to an endpoint, and the milliseconds that pass.
abbrev pub Exchange : Type 0
Exchange =
    Tls → Endpoint → PaymentPayload → PaymentRequirements → Result TransportError Response × ℕ

unfoldable pub begins_with : Text → Text → Bool
begins_with [] s = true
begins_with (p ∷ ps) [] = false
begins_with (p ∷ ps) (c ∷ cs) = p == c && begins_with ps cs

-- `contains`.
unfoldable pub contains : Text → Text → Bool
unfolding begins_with
contains [] part = begins_with part []
contains (c ∷ cs) part = begins_with part (c ∷ cs) || contains cs part

unfoldable pub is_cert_pin_mismatch : TransportError → Bool
unfolding contains
is_cert_pin_mismatch e =
    any (λ (msg : Text). contains msg (codes "x402: SPKI pin mismatch")) e.messages

unfoldable pub transport_failure : TransportError → ℕ → X402Error
unfolding is_cert_pin_mismatch
transport_failure e elapsed_ms =
    if e.is_timeout
    then settlement_timeout facilitator_slow (some elapsed_ms)
    else if is_cert_pin_mismatch e
    then facilitator_unreachable cert_pin_mismatch
    else if e.is_connect
    then facilitator_unreachable connection_refused
    else facilitator_unreachable transport

unfoldable pub or_failed : {A : Type 0} → ℕ → Result TransportError A → Result X402Error A
unfolding transport_failure
or_failed elapsed_ms (ok a) = ok a
or_failed elapsed_ms (err e) = err (transport_failure e elapsed_ms)

-- The checks on the status once the body is verified.
unfoldable pub check_status : ℕ → ℕ → Result X402Error (Unit {0})
check_status status elapsed_ms =
    if leb 200 status && ltb status 300
    then ok tt
    else if leb 500 status
    then err (settlement_timeout facilitator_5xx (some elapsed_ms))
    else err (payment_invalid facilitator_rejected)

-- `trim_start_matches` of a text that is not empty; the length of `s` is enough rounds.
unfoldable pub strip_copies : ℕ → Text → Text → Text
unfolding begins_with
strip_copies zero part s = s
strip_copies (suc n) part s =
    let rest = strip_copies n part (drop (length part) s) in if begins_with part s then rest else s

unfoldable pub trim_start_matches : Text → Text → Text
unfolding strip_copies
trim_start_matches part s = strip_copies (length s) part s

-- The other crates, and the keys' texts.
pub record Crates : Type 0 where
  pub trim : Text → Text
  pub hex_decode : Text → Option Text
  pub base64_decode : Text → Option Text
  pub url_parses : Text → Bool
  pub url_joins : Text → Endpoint → Bool
  pub key_from_bytes : Text → Bool
  pub ed25519_verify : Text → Text → Text → Bool
  pub parse_verify : Text → Option VerifyResponse
  pub parse_settle : Text → Option SettleResponse

pub record FacilitatorClient : Type 0 where
  pub base_url : Text
  pub response_pubkey : Text
  pub tls : Tls

module _ (crates : Crates) where
  unfoldable pub decode_hex_or_b64 : Text → Option Text
  unfolding trim_start_matches
  decode_hex_or_b64 s = elim (crates.hex_decode (trim_start_matches (codes "0x") (crates.trim s))) [
    | some b ↦ some b
    | none ↦ crates.base64_decode (crates.trim s)
  ]

  -- The connection that the pin asks for, where it can be built.
  unfoldable pub tls_for : Bool → Bool → Text → Result FacilitatorInitError Tls
  tls_for verifier_builds client_builds pin =
      if all (λ (b : ℕ). b == 0) pin
      then guard client_builds client_build >> ok webpki
      else guard verifier_builds tls_config >> (guard client_builds client_build >> ok (pinned pin))

  unfoldable pub new :
      Bool → Bool → Text → Text → Text → Result FacilitatorInitError FacilitatorClient
  unfolding decode_hex_or_b64 trim_start_matches tls_for
  new verifier_builds client_builds facilitator_url response_pubkey_hex cert_pin_hex = do
    guard (crates.url_parses facilitator_url) invalid_url
    pubkey_bytes ← ok_or (decode_hex_or_b64 response_pubkey_hex) invalid_pubkey
    guard (length pubkey_bytes == 32) invalid_pubkey
    guard (crates.key_from_bytes pubkey_bytes) invalid_pubkey
    pin_bytes ←
        ok_or (crates.hex_decode (trim_start_matches (codes "sha256:") cert_pin_hex))
          invalid_cert_pin
    guard (length pin_bytes == 32) invalid_cert_pin
    connection ← tls_for verifier_builds client_builds pin_bytes
    ok (record { base_url = facilitator_url; response_pubkey = pubkey_bytes; tls = connection })

  unfoldable pub verify_ed25519 : FacilitatorClient → Text → Text → Result X402Error (Unit {0})
  verify_ed25519 client body sig_b64 = do
    sig_bytes ←
        ok_or (crates.base64_decode (crates.trim sig_b64))
          (facilitator_unreachable signature_pin_mismatch)
    guard (length sig_bytes == 64) (facilitator_unreachable signature_pin_mismatch)
    guard (crates.ed25519_verify client.response_pubkey body sig_bytes)
        (facilitator_unreachable signature_pin_mismatch)

  unfoldable pub post_signed :
      FacilitatorClient → Result TransportError Response → ℕ → Result X402Error Text
  unfolding or_failed verify_ed25519 check_status
  post_signed client answer elapsed_ms = do
    resp ← or_failed elapsed_ms answer
    sig_header ← ok_or resp.sig_header (facilitator_unreachable signature_pin_mismatch)
    body_bytes ← ok_or resp.body (facilitator_unreachable body_read)
    verify_ed25519 client body_bytes sig_header
    check_status resp.status elapsed_ms
    ok body_bytes

  module _ (client : FacilitatorClient) (exchange : Exchange) where
    unfoldable pub verify : PaymentPayload → PaymentRequirements → Result X402Error VerifyResponse
    unfolding post_signed
    verify payload requirements = do
      guard (crates.url_joins client.base_url verify_path) (facilitator_unreachable url_join)
      let answer = exchange client.tls verify_path payload requirements
      body_bytes ← post_signed client answer.0 answer.1
      ok_or (crates.parse_verify body_bytes) (payment_invalid facilitator_response_parse)

    unfoldable pub settle : PaymentPayload → PaymentRequirements → Result X402Error SettleResponse
    unfolding post_signed
    settle payload requirements = do
      guard (crates.url_joins client.base_url settle_path) (facilitator_unreachable url_join)
      let answer = exchange client.tls settle_path payload requirements
      body_bytes ← post_signed client answer.0 answer.1
      ok_or (crates.parse_settle body_bytes) (settlement_timeout facilitator_response_parse none)
