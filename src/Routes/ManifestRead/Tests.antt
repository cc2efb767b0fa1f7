-- ===== src/Routes/ManifestRead/Tests.antt =====
-- src/routes/invoke.rs: runs of what is read from a manifest.
use jecp_server.Prelude.{
  ◌≡◌, refl, true, ◌&&◌, Option, none, some, [], ◌∷◌, Text, codes, any, text_eq,
}
use jecp_server.Auth.Agent.{gold}
use jecp_server.Routes.InvokeX402.{action_accepts_x402}
use jecp_server.Routes.ManifestRead.{
  written, Action, Manifest, X402AcceptParams, build_payment_accepts, extract_action_price,
  parse_trust_tier, trim, trim_start, trim_end, is_whitespace, to_lowercase, price_of, first_price,
  or_later,
}
use jecp_server.Routes.ManifestRead.Lookup.{declared_actions}
use jecp_server.Routes.ManifestRead.Offers.{is_exact, is_configured, build_payment_accepts_exact}

-- Prices are texts that are kept as they are.
abbrev parse_f64 : Text → Option Text
parse_f64 t = some t

abbrev translate : Action Text
translate = record {
  declared = record { id = some "translate"; payment_methods = some (some "x402" ∷ none ∷ []) };
  pricing_base = some (written (codes "$ 0.02"));
  trust_tier_required = some "Gold";
  streaming = none;
}

abbrev manifest : Manifest Text
manifest = some (translate ∷ [])

abbrev params : X402AcceptParams
params = record {
  network = "base";
  asset = codes "0x1";
  pay_to = codes "0x2";
  facilitator_url = codes "u";
}

price_read : extract_action_price parse_f64 manifest "translate" ≡ some (codes "0.02")
unfolding extract_action_price first_price price_of or_later trim trim_start trim_end is_whitespace
    text_eq
price_read = refl

tier_parsed : parse_trust_tier (codes " GOLD ") ≡ some gold
unfolding parse_trust_tier trim trim_start trim_end is_whitespace to_lowercase text_eq
tier_parsed = refl

build_payment_accepts_exact_example :
    any is_exact
      (build_payment_accepts (some params) true manifest "translate" [] [] (codes "20000") [])
    ≡ (is_configured (some params)
        && (true && action_accepts_x402 (declared_actions manifest) "translate"))
build_payment_accepts_exact_example =
    build_payment_accepts_exact (some params) true manifest "translate" [] [] (codes "20000") []
