-- ===== src/Protocol/X402Verify/Tests.antt =====
-- A payment that passes the checks.
use jecp_server.Prelude.{◌≡◌, refl, codes, ok}
use jecp_server.Protocol.Decimal.{parse_u128}
use jecp_server.Protocol.X402Types.{PaymentPayload, PaymentRequirements}
use jecp_server.Protocol.X402Verify.{validate_payment_payload}

abbrev payment : PaymentPayload
payment = record {
  x402_version = 1;
  scheme = "exact";
  network = "base";
  payload = record {
    signature = codes "0x01";
    authorization = record {
      from = 7;
      to = 11;
      value = 5000;
      valid_after = 100;
      valid_before = 200;
      nonce = 3;
    };
  };
}

abbrev asked : PaymentRequirements
asked = record {
  scheme = "exact";
  network = "base";
  max_amount_required = codes "5000";
  asset = 12;
  pay_to = 11;
  splitter_capability_id = 17;
}

passes : validate_payment_payload payment asked 150 ≡ ok tt
unfolding validate_payment_payload parse_u128
passes = refl
