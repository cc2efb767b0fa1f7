-- ===== src/Protocol/X402Types.antt =====
-- src/protocol/x402_types.rs: the x402 wire types, the settlement row and the error.
-- An address, a nonce and a transaction hash are numbers; `U256` is a number. Human-readable messages
-- are left out of the errors, and what no modelled code reads is left out of the responses.
use Prim.Native.String.{String}
use jecp_server.Prelude.{ℕ, Bool, Option, Text}

pub record Eip3009Authorization : Type 0 where
  pub from : ℕ
  pub to : ℕ
  pub value : ℕ
  pub valid_after : ℕ
  pub valid_before : ℕ
  pub nonce : ℕ

pub record ExactPayload : Type 0 where
  pub signature : Text
  pub authorization : Eip3009Authorization

pub record PaymentPayload : Type 0 where
  pub x402_version : ℕ
  pub scheme : String
  pub network : String
  pub payload : ExactPayload

pub record PaymentRequirements : Type 0 where
  pub scheme : String
  pub network : String
  pub max_amount_required : Text
  pub asset : ℕ
  pub pay_to : ℕ
  pub splitter_capability_id : ℕ

pub record VerifyResponse : Type 0 where
  pub is_valid : Bool

pub record SettleResponse : Type 0 where
  pub success : Bool
  pub tx_hash : Option ℕ
  pub network_id : Option String
  pub payer : Option ℕ

pub data X402SettlementStatus : Type 0 where
  facilitator_attested chain_confirmed mismatched failed orphaned : X402SettlementStatus

-- `as_str`, the form in the database.
unfoldable pub as_str : X402SettlementStatus → String
as_str facilitator_attested = "facilitator_attested"
as_str chain_confirmed = "chain_confirmed"
as_str mismatched = "mismatched"
as_str failed = "failed"
as_str orphaned = "orphaned"

-- `details.subcause`, under the source's strings.
pub data Subcause : Type 0 where
  duplicate_payment_header x402_disabled capability_wallet_only : Subcause
  header_too_large base64_decode json_parse scheme_unsupported version_unsupported : Subcause
  scheme_mismatch network_mismatch recipient_mismatch not_yet_valid expired : Subcause
  amount_parse_error amount_overflow amount_mismatch : Subcause
  db_unavailable db_insert db_lookup db_row_decode db_update db_list : Subcause
  nonce_reused tx_hash_seen : Subcause
  facilitator_rejected settle_failed facilitator_slow facilitator_5xx : Subcause
  facilitator_response_parse url_join cert_pin_mismatch connection_refused transport : Subcause
  signature_pin_mismatch body_read : Subcause

pub record ReplayInfo : Type 0 where
  pub tx_hash : ℕ
  pub original_request_id : String
  pub original_settled_at : ℕ

pub data X402Error : Type 0 where
  payment_invalid : Subcause → X402Error
  not_accepted : Subcause → X402Error
  settlement_timeout : Subcause → Option ℕ → X402Error
  facilitator_unreachable : Subcause → X402Error
  settlement_reused : Subcause → Option ReplayInfo → X402Error

unfoldable pub code : X402Error → String
code (payment_invalid s) = "X402_PAYMENT_INVALID"
code (not_accepted s) = "X402_NOT_ACCEPTED"
code (settlement_timeout s ms) = "X402_SETTLEMENT_TIMEOUT"
code (facilitator_unreachable s) = "X402_FACILITATOR_UNREACHABLE"
code (settlement_reused s info) = "X402_SETTLEMENT_REUSED"

unfoldable pub subcause : X402Error → Subcause
subcause (payment_invalid s) = s
subcause (not_accepted s) = s
subcause (settlement_timeout s ms) = s
subcause (facilitator_unreachable s) = s
subcause (settlement_reused s info) = s

unfoldable pub http_status : X402Error → ℕ
http_status (payment_invalid s) = 422
http_status (not_accepted s) = 422
http_status (settlement_timeout s ms) = 504
http_status (facilitator_unreachable s) = 502
http_status (settlement_reused s info) = 409
