-- ===== src/Routes/Invoke/Tests.antt =====
-- src/routes/invoke.rs: runs of the JSON path.
use jecp_server.Prelude.{
  ℕ, true, none, some, List, [], ◌∷◌, Text, codes, ltb, text_eq, any, ok, if◌then◌else◌,
}
use jecp_server.Auth.Agent.{KeyRow}
use jecp_server.Auth.Provenance.Sample.{toy_hmac, claimed}
use jecp_server.Auth.ReplayCache.{first, replay}
use jecp_server.Protocol.UrlGuard.{v4}
use jecp_server.Routes.InvokeX402.{no_x_payment}
use jecp_server.Routes.InvokeChecks.{Mandate, InvokeRequest}
use jecp_server.Routes.ManifestRead.{Action, number}
use jecp_server.Routes.Invoke.{World, AppState, Readings}

-- A cache of seen nonces, a guard that lets every URL through, and a hash that is always the same.
abbrev state : AppState ℕ (List Text)
state = record {
  lt = ltb;
  parse_f64 = λ t. none;
  bcrypt_verify = λ key hash. true;
  hmac_hex = toy_hmac;
  compute_provenance_hash = λ agent. [];
  agent_id_text = codes;
  check_and_insert = λ c agent_id n. if any (text_eq n) c then (replay, c) else (first, n ∷ c);
  dispatch_x402 = λ price t. (no_x_payment, t);
  validate_outbound_url =
      λ u. ok (record { url = u; host = u; pinned_addr = record { ip = v4 1; port = 443 } });
  default_rpm = 60;
}

abbrev row : KeyRow
row = record {
  profile = record {
    agent_id = 1;
    api_key = [];
    total_calls = 150;
    free_calls_remaining = 0;
    paid = true;
  };
  active_hash = some [];
  previous_hash = none;
  previous_valid_until = none;
  active_plain = none;
  previous_plain = none;
}

abbrev action : Action ℕ
action = record {
  declared = record { id = some "say"; payment_methods = none };
  pricing_base = some (number 5);
  trust_tier_required = none;
  streaming = none;
}

abbrev mandate : Mandate ℕ
mandate = record {
  api_key = codes "k";
  budget_usdc = none;
  expires_at = none;
  provenance_hash = some claimed;
}

abbrev request : InvokeRequest ℕ
request = record {
  jecp = codes "1.0";
  id = codes "r";
  capability = codes "a/b";
  action = "say";
  mandate = some mandate;
}

abbrev readings : Readings ℕ
readings = record {
  body = some request;
  headers = record { x_agent_id = some "agent"; x_api_key = some (codes "k") };
  has_pool = true;
  now = 1000;
  instant = 0;
  row = ok (some row);
  cached = ok none;
  resolution = ok (
      some (record {
        endpoint_url = codes "https://p";
        hmac_secret = codes "s";
        parsed_json = some (action ∷ []);
        sunset_at = none;
      }));
  schema = ok tt;
  balance = ok 7;
  signed = true;
  client_built = true;
  provider = ok (record { status = 200; body = codes "hi" });
  charge = ok (some (record { balance_after = 2; transaction_id = 9 }));
}

abbrev empty : World ℕ (List Text)
empty = record { windows = λ k. none; replays = []; settlements = []; log = [] }
