-- ===== src/Routes/InvokeX402/Tests.antt =====
-- One request, settled and then repeated.
use Prim.Native.String.{String}
use jecp_server.Prelude.{
  ◌++◌, text_eq, ℕ, ◌≡◌, refl, true, Option, none, some, [], ◌∷◌, ◌+◌, ◌*◌, ◌/◌, ◌≤◌, ◌<◌, arith,
  Text, codes, ok,
}
use jecp_server.Protocol.X402Types.{PaymentPayload, facilitator_attested}
use jecp_server.Protocol.Decimal.{digits, to_string, parse_u128}
use jecp_server.Protocol.X402Verify.{decode_x_payment_header, validate_payment_payload}
use jecp_server.Services.Settlements.{Table, exists_by_nonce, insert}
use jecp_server.Routes.InvokeX402.{
  X402Config, X402Billing, Database, Request, settled, split_shares, dispatch_x402, requirements,
}
use jecp_server.Routes.InvokeX402.Settled.{IsSettled, dispatch_x402-settled}
use jecp_server.Services.Facilitator.{
  Crates, FacilitatorClient, Exchange, webpki, verify, settle, post_signed, or_failed,
  verify_ed25519, check_status,
}
use jecp_server.Routes.InvokeX402.Signed.{IsVouched, dispatch_x402-IsVouched}
use jecp_server.Routes.InvokeX402.Split.{split_shares-exact}

abbrev payment : PaymentPayload
payment = record {
  x402_version = 1;
  scheme = "exact";
  network = "base";
  payload = record {
    signature = codes "0x01";
    authorization = record {
      from = 7;
      to = 11;
      value = 5000;
      valid_after = 100;
      valid_before = 200;
      nonce = 3;
    };
  };
}

abbrev config : X402Config
config = record {
  network = "base";
  usdc_asset = 12;
  splitter_address = 11;
  verify = λ p r. ok (record { is_valid = true });
  settle =
      λ p r. ok (record { success = true; tx_hash = some 99; network_id = none; payer = none });
  base_url = "https://facilitator.test";
}

abbrev database : Database
database = record {
  has_pool = true;
  exists_ok = true;
  nonce_ok = true;
  tx_ok = true;
  insert_ok = true;
  tx_first = true;
  now = 150;
  fresh_id = 1;
}

abbrev request : Request
request = record {
  x_payment = some (codes "e30=") ∷ [];
  namespace = "acme";
  capability_id = "acme/translate";
  action_id = "translate";
  version = "1.0.0";
  agent_id = "agent";
  request_id = "r1";
  amount_micro = 5000;
  manifest = some (
      record { id = some "translate"; payment_methods = some (some "wallet" ∷ some "x402" ∷ []) }
      ∷ []);
}

abbrev decoded : Text → Option Text
decoded t = some t

abbrev parsed : Text → Option PaymentPayload
parsed t = some payment

abbrev derived : String → String → String → ℕ
derived n a v = 17

abbrev bill : X402Billing
bill = record {
  settlement_id = 1;
  tx_hash = 99;
  payer = 7;
  network = "base";
  facilitator_url = "https://facilitator.test";
  amount_micro = 5000;
  provider_micro = 4250;
  hub_micro = 500;
  network_micro = 250;
  status = facilitator_attested;
}

settles :
    (dispatch_x402 decoded parsed derived (some config) true database 150 request [] []).0
    ≡ settled bill
unfolding dispatch_x402 requirements decode_x_payment_header validate_payment_payload to_string
    parse_u128 exists_by_nonce insert digits
settles = refl

dispatch_x402-settled_example :
    IsSettled decoded parsed derived
      (some config)
      true
      database
      150
      request
      []
      []
      bill
      (dispatch_x402 decoded parsed derived (some config) true database 150 request [] []).1
dispatch_x402-settled_example =
    dispatch_x402-settled decoded parsed derived (some config) true database 150 request [] [] bill
      settles

abbrev after : Table
after = (dispatch_x402 decoded parsed derived (some config) true database 150 request [] []).1

split_shares-exact_example :
    let s = split_shares 5001 in
    (s.provider ≡ 5001 * 85 / 100)
    × (s.hub ≡ 5001 / 10)
    × (s.provider + s.hub + s.network ≡ 5001)
    × (5001 ≤ s.network * 20)
    × (s.network * 20 < 5001 + 40)
split_shares-exact_example = split_shares-exact 5001 (omega arith)

-- A facilitator that signs with 64 sevens.
abbrev sevens : Text
sevens =
    let eight = 7 ∷ 7 ∷ 7 ∷ 7 ∷ 7 ∷ 7 ∷ 7 ∷ 7 ∷ [] in
    eight ++ (eight ++ (eight ++ (eight ++ (eight ++ (eight ++ (eight ++ eight))))))

abbrev crates : Crates
crates = record {
  trim = λ s. s;
  hex_decode = λ s. none;
  base64_decode = λ s. some sevens;
  url_parses = λ s. true;
  url_joins = λ s e. true;
  key_from_bytes = λ s. true;
  ed25519_verify = λ key body signature. text_eq signature sevens;
  parse_verify = λ body. some (record { is_valid = true });
  parse_settle =
      λ body. some (record { success = true; tx_hash = some 99; network_id = none; payer = none });
}

abbrev client : FacilitatorClient
client = record {
  base_url = codes "https://facilitator.test";
  response_pubkey = codes "key";
  tls = webpki;
}

abbrev exchange : Exchange
exchange = λ tls endpoint p r.
    (ok (record { status = 200; sig_header = some (codes "Bw=="); body = some (codes "{}") }), 12)

abbrev vouched_config : X402Config
vouched_config = record config {
  verify = verify crates client exchange;
  settle = settle crates client exchange;
}

settles_signed :
    (dispatch_x402 decoded parsed derived (some vouched_config) true database 150 request [] []).0
    ≡ settled bill
unfolding dispatch_x402 requirements decode_x_payment_header validate_payment_payload to_string
    parse_u128 exists_by_nonce insert digits verify settle post_signed or_failed verify_ed25519
    check_status text_eq
settles_signed = refl

dispatch_x402-IsVouched_example :
    IsVouched decoded parsed derived crates client exchange vouched_config request 99
dispatch_x402-IsVouched_example =
    dispatch_x402-IsVouched decoded parsed derived crates client exchange vouched_config true
      database 150 request [] [] bill refl refl settles_signed
