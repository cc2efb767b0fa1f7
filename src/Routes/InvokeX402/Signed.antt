-- ===== src/Routes/InvokeX402/Signed.antt =====
-- src/routes/invoke_x402.rs with src/services/x402_facilitator.rs: what the payment branch takes for
-- settled, the facilitator has signed.
use Prim.Native.String.{String}
use jecp_server.Prelude.{ℕ, ◌≡◌, ap, sym, ◌∙◌, subst, Bool, true, Option, some, Text, Result, ok}
use jecp_server.Protocol.X402Types.{
  PaymentPayload, PaymentRequirements, VerifyResponse, SettleResponse, X402Error,
}
use jecp_server.Services.Settlements.{Table}
use jecp_server.Services.Facilitator.{
  Crates, FacilitatorClient, Exchange, verify_path, settle_path, verify, settle,
}
use jecp_server.Services.Facilitator.Signed.{Says, verify-Says, settle-Says}
use jecp_server.Routes.InvokeX402.{
  X402Config, X402Billing, Database, Request, settled, dispatch_x402, requirements,
}
use jecp_server.Routes.InvokeX402.Settled.{dispatch_x402-settled}

some-injective : {c d : X402Config} → some c ≡ some d → c ≡ d
some-injective e = cc

module _ (base64_decoded : Text → Option Text) (json_parsed : Text → Option PaymentPayload)
    (derive_capability_id : String → String → String → ℕ) (crates : Crates)
    (client : FacilitatorClient) (exchange : Exchange) where
  -- The facilitator's signed word, for one payment, that it is valid and that it is settled in this
  -- transaction.
  pub record IsVouched (cfg : X402Config) (q : Request) (tx : ℕ) : Type 0 where
    pub payload : PaymentPayload
    pub validity : VerifyResponse
    pub settlement : SettleResponse
    pub says_valid :
        Says crates client exchange crates.parse_verify verify_path payload
          (requirements base64_decoded json_parsed derive_capability_id cfg q)
          validity
    pub valid : validity.is_valid ≡ true
    pub says_settled :
        Says crates client exchange crates.parse_settle settle_path payload
          (requirements base64_decoded json_parsed derive_capability_id cfg q)
          settlement
    pub success : settlement.success ≡ true
    pub transaction : settlement.tx_hash ≡ some tx

  -- A payment that counts as settled, with this client for the calls of the facilitator, is one of which
  -- responses of success, with signatures of the pinned key on their bodies, say that it is valid and
  -- that it succeeded, with the transaction of the bill.
  pub dispatch_x402-IsVouched :
      (cfg : X402Config) (enabled : Bool) (d : Database) (now_unix : ℕ) (q : Request)
      (before t : Table) (b : X402Billing)
      → cfg.verify ≡ verify crates client exchange
      → cfg.settle ≡ settle crates client exchange
      → (dispatch_x402 base64_decoded json_parsed derive_capability_id
          (some cfg)
          enabled
          d
          now_unix
          q
          before
          t).0
        ≡ settled b
      → IsVouched cfg q b.tx_hash
  dispatch_x402-IsVouched cfg enabled d now_unix q before t b ev es h =
      let s =
        dispatch_x402-settled base64_decoded json_parsed derive_capability_id (some cfg) enabled d
          now_unix q before t b h in
      let required = requirements base64_decoded json_parsed derive_capability_id in
      let same = some-injective (sym s.admitted.configuration) in
      let (v, checked, is_valid) = s.paid.verified in
      let checked_here =
        subst (λ (c : X402Config). c.verify s.payload (required c q) ≡ ok v) same checked in
      let settled_here =
        subst (λ (c : X402Config). c.settle s.payload (required c q) ≡ ok s.response) same
          s.paid.settled_by in
      record {
        payload = s.payload;
        validity = v;
        settlement = s.response;
        says_valid = verify-Says crates client exchange s.payload (required cfg q) v (
            ap
              (λ (f : PaymentPayload → PaymentRequirements → Result X402Error VerifyResponse).
                f s.payload (required cfg q))
              (sym ev)
            ∙ checked_here);
        valid = is_valid;
        says_settled = settle-Says crates client exchange s.payload (required cfg q) s.response (
            ap
              (λ (f : PaymentPayload → PaymentRequirements → Result X402Error SettleResponse).
                f s.payload (required cfg q))
              (sym es)
            ∙ settled_here);
        success = s.paid.succeeded;
        transaction = s.paid.transaction;
      }
