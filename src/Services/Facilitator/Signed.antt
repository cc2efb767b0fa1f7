-- ===== src/Services/Facilitator/Signed.antt =====
-- src/services/x402_facilitator.rs: only what the facilitator has signed
-- counts.
use jecp_server.Prelude.{
  ℕ, ◌≤◌, ◌<◌, ◌≡◌, true, Option, some, Text, ◌==◌, length, Result, ok, err, guard, ok_or,
  >>=-eq-ok, guard-eq-ok, ok_or-eq-ok, ok-injective, arith, subst,
}
use jecp_server.Protocol.X402Types.{
  PaymentPayload, PaymentRequirements, VerifyResponse, SettleResponse, facilitator_unreachable,
  signature_pin_mismatch, body_read, url_join,
}
use jecp_server.Services.Facilitator.{
  Response, TransportError, Endpoint, verify_path, settle_path, Exchange, Crates, FacilitatorClient,
  or_failed, check_status, verify_ed25519, post_signed, verify, settle,
}

module _ (crates : Crates) where
  -- A response of success, whose body bears a signature of 64 bytes by the pinned key.
  pub record IsSigned (client : FacilitatorClient) (answer : Result TransportError Response)
      (body : Text) : Type 0 where
    pub response : Response
    pub arrived : answer ≡ ok response
    pub read : response.body ≡ some body
    pub success : (200 ≤ response.status) × (response.status < 300)
    pub signature : Text
    pub size : length signature ≡ 64
    pub signed : crates.ed25519_verify client.response_pubkey body signature ≡ true

  verify_ed25519-ok :
      (client : FacilitatorClient) (body sig_b64 : Text) {u : Unit {0}}
      → verify_ed25519 crates client body sig_b64 ≡ ok u
      → (signature : Text) × (length signature ≡ 64)
        × (crates.ed25519_verify client.response_pubkey body signature ≡ true)
  unfolding verify_ed25519
  verify_ed25519-ok client body sig_b64 h =
      let (signature, _, h1) =
        >>=-eq-ok
          (ok_or (crates.base64_decode (crates.trim sig_b64))
            (facilitator_unreachable signature_pin_mismatch))
          _ h in
      let (_, size, h2) =
        >>=-eq-ok (guard (length signature == 64) (facilitator_unreachable signature_pin_mismatch))
          _ h1 in
      (signature, is_64 signature (guard-eq-ok (length signature == 64) _ size), guard-eq-ok _ _ h2)
    where
      is_64 : (s : Text) → (length s == 64) ≡ true → length s ≡ 64
      is_64 s e = ground arith

  or_failed-ok :
      (ms : ℕ) (answer : Result TransportError Response) (resp : Response)
      → or_failed ms answer ≡ ok resp
      → answer ≡ ok resp
  unfolding or_failed
  or_failed-ok ms (ok r) resp h = cc
  or_failed-ok ms (err e) resp h = absurd (cc)

  check_status-ok :
      (status ms : ℕ) {u : Unit {0}}
      → check_status status ms ≡ ok u
      → (200 ≤ status) × (status < 300)
  unfolding check_status
  check_status-ok status ms h = ground arith

  pub post_signed-IsSigned :
      (client : FacilitatorClient) (answer : Result TransportError Response) (ms : ℕ) (body : Text)
      → post_signed crates client answer ms ≡ ok body
      → IsSigned client answer body
  unfolding post_signed
  post_signed-IsSigned client answer ms body h =
      let (resp, h0, h1) = >>=-eq-ok (or_failed ms answer) _ h in
      let (sig_header, _, h2) =
        >>=-eq-ok (ok_or resp.sig_header (facilitator_unreachable signature_pin_mismatch)) _ h1 in
      let (bytes, hb, h3) = >>=-eq-ok (ok_or resp.body (facilitator_unreachable body_read)) _ h2 in
      let (_, hv, h4) = >>=-eq-ok (verify_ed25519 crates client bytes sig_header) _ h3 in
      let (_, hs, h5) = >>=-eq-ok (check_status resp.status ms) _ h4 in
      let (signature, size, signed) = verify_ed25519-ok client bytes sig_header hv in
      subst (IsSigned client answer) (ok-injective h5) (record {
        response = resp;
        arrived = or_failed-ok ms answer resp h0;
        read = ok_or-eq-ok resp.body _ hb;
        success = check_status-ok resp.status ms hs;
        signature = signature;
        size = size;
        signed = signed;
      })

  module _ (client : FacilitatorClient) (exchange : Exchange) where
    -- The facilitator has signed a body that says so, in its response to this request.
    abbrev pub Says :
        {A : Type 0}
        → (Text → Option A)
        → Endpoint
        → PaymentPayload
        → PaymentRequirements
        → A
        → Type 0
    Says parse endpoint payload requirements a =
        (body : Text) × IsSigned client (exchange client.tls endpoint payload requirements).0 body
        × (parse body ≡ some a)

    pub verify-Says :
        (payload : PaymentPayload) (required : PaymentRequirements) (v : VerifyResponse)
        → verify crates client exchange payload required ≡ ok v
        → Says crates.parse_verify verify_path payload required v
    unfolding verify
    verify-Says payload required v h =
        let answer = exchange client.tls verify_path payload required in
        let (_, _, h1) =
          >>=-eq-ok
            (guard (crates.url_joins client.base_url verify_path)
              (facilitator_unreachable url_join))
            _ h in
        let (body, hb, h2) = >>=-eq-ok (post_signed crates client answer.0 answer.1) _ h1 in
        (
          body,
          post_signed-IsSigned client answer.0 answer.1 body hb,
          ok_or-eq-ok (crates.parse_verify body) _ h2,
        )

    pub settle-Says :
        (payload : PaymentPayload) (required : PaymentRequirements) (r : SettleResponse)
        → settle crates client exchange payload required ≡ ok r
        → Says crates.parse_settle settle_path payload required r
    unfolding settle
    settle-Says payload required r h =
        let answer = exchange client.tls settle_path payload required in
        let (_, _, h1) =
          >>=-eq-ok
            (guard (crates.url_joins client.base_url settle_path)
              (facilitator_unreachable url_join))
            _ h in
        let (body, hb, h2) = >>=-eq-ok (post_signed crates client answer.0 answer.1) _ h1 in
        (
          body,
          post_signed-IsSigned client answer.0 answer.1 body hb,
          ok_or-eq-ok (crates.parse_settle body) _ h2,
        )
