-- ===== src/Routes/InvokeChecks/Tests.antt =====
-- src/routes/invoke.rs: runs of the checks.
use jecp_server.Prelude.{
  ℕ, ◌≡◌, refl, true, false, Option, none, some, [], ◌∷◌, Text, codes, ltb, ok, err, ◌>>=◌, ◌>>◌,
  text_eq,
}
use jecp_server.Auth.Agent.{AgentProfile, trust_tier, rank}
use jecp_server.Routes.InvokeX402.{is_str}
use jecp_server.Routes.ManifestRead.{
  Action, number, extract_action_streaming, extract_action_price, extract_action_trust_tier, find,
  first_price, price_of, or_later, first_tier, lowercased, parse_trust_tier, trim, trim_start,
  trim_end, is_whitespace, to_lowercase,
}
use jecp_server.Routes.InvokeChecks.{
  InvokeRequest, ResolvedCapability, replayed, cached_status, check_cache, check_sunset,
  check_terms, check_stream_terms, check_balance, check_resolved, check_price, check_trust,
  check_mandate, tier_text,
}
use jecp_server.Routes.InvokeChecks.Agreement.{check_stream_terms-check_terms}

abbrev agent : AgentProfile
agent = record {
  agent_id = 1;
  api_key = codes "k";
  total_calls = 150;
  free_calls_remaining = 0;
  paid = true;
}

abbrev parse_f64 : Text → Option ℕ
parse_f64 t = none

abbrev action : Action ℕ
action = record {
  declared = record { id = some "say"; payment_methods = none };
  pricing_base = some (number 5);
  trust_tier_required = none;
  streaming = some true;
}

abbrev capability : ResolvedCapability ℕ
capability = record {
  endpoint_url = codes "https://p";
  hmac_secret = codes "s";
  parsed_json = some (action ∷ []);
  sunset_at = some 900;
}

abbrev request : InvokeRequest ℕ
request = record {
  jecp = codes "1.0";
  id = codes "r";
  capability = codes "a/b";
  action = "say";
  mandate = none;
}

-- A kept response is given back with its status, or 200 where that is none of HTTP.
kept :
    check_cache (ok (some (record { response = some []; http_status = 99; conflict = false })))
    ≡ err (replayed 200 [])
unfolding check_cache cached_status
kept = refl

stream_let_through :
    check_stream_terms ltb parse_f64 800 (ok (some capability)) (ok 5) request agent
    ≡ ok (capability, 5)
unfolding check_stream_terms check_resolved check_price check_trust check_mandate check_balance
    tier_text extract_action_streaming extract_action_price extract_action_trust_tier find
    first_price price_of or_later first_tier lowercased is_str parse_trust_tier trim trim_start
    trim_end is_whitespace to_lowercase trust_tier rank text_eq
stream_let_through = refl

check_stream_terms-check_terms_example :
    check_stream_terms ltb parse_f64 800 (ok (some capability)) (ok 4) request agent ≡ (
      check_terms ltb parse_f64 800 (ok (some capability)) (ok tt) request agent
      >>= λ (x : ResolvedCapability ℕ × ℕ). check_balance ltb parse_f64 x.1 (ok 4) >> ok x)
unfolding check_sunset extract_action_streaming find is_str
check_stream_terms-check_terms_example =
    check_stream_terms-check_terms ltb parse_f64 800 capability (ok 4) request agent refl refl
