-- ===== src/Protocol/X402Verify/Checks.antt =====
-- What a payment that passes the checks of src/protocol/x402_verify.rs satisfies.
use text.Mathlib.TextEquality.{eq_iff}
use jecp_server.Prelude.{ℕ, ◌≤◌, ◌<◌, ◌≡◌, ◌↔◌, some, arith, ok}
use jecp_server.Protocol.Decimal.{parse_u128, u128_mod}
use jecp_server.Protocol.X402Types.{PaymentPayload, PaymentRequirements}
use jecp_server.Protocol.X402Verify.{validate_payment_payload}

-- What the checks ask for, written as facts.
pub record IsPayable (p : PaymentPayload) (r : PaymentRequirements) (now : ℕ) : Type 0 where
  pub scheme : p.scheme ≡ r.scheme
  pub network : p.network ≡ r.network
  pub recipient : p.payload.authorization.to ≡ r.pay_to
  pub started : p.payload.authorization.valid_after ≤ now
  pub not_over : now < p.payload.authorization.valid_before
  pub amount : parse_u128 r.max_amount_required ≡ some p.payload.authorization.value
  pub in_range : p.payload.authorization.value < u128_mod

module _ (p : PaymentPayload) (r : PaymentRequirements) (now : ℕ) where
  pub validated-IsPayable : validate_payment_payload p r now ≡ ok tt → IsPayable p r now
  unfolding validate_payment_payload
  validated-IsPayable h = record {
    scheme = ground (arith, eq_iff p.scheme r.scheme);
    network = ground (arith, eq_iff p.network r.network);
    recipient = ground arith;
    started = ground arith;
    not_over = ground arith;
    amount = ground arith;
    in_range = ground arith;
  }

  pub IsPayable-validated : IsPayable p r now → validate_payment_payload p r now ≡ ok tt
  unfolding validate_payment_payload
  IsPayable-validated v = ground (arith, eq_iff p.scheme r.scheme, eq_iff p.network r.network)

  -- A payment passes the checks exactly when it is payable.
  pub validate_payment_payload_iff : (validate_payment_payload p r now ≡ ok tt) ↔ IsPayable p r now
  validate_payment_payload_iff = (validated-IsPayable, IsPayable-validated)
