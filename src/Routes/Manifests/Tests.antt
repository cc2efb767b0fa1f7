-- ===== src/Routes/Manifests/Tests.antt =====
-- Runs of the checks of src/routes/manifests.rs: prices are whole numbers, written as one digit.
use jecp_server.Prelude.{
  ℕ, ◌-◌, ◌≡◌, refl, Bool, true, Option, none, some, [], ◌∷◌, Text, codes, ◌==◌, ok, err,
}
use jecp_server.Routes.ManifestRead.{
  extract_action_price, trim, trim_start, trim_end, is_whitespace,
}
use jecp_server.Routes.Manifests.{
  ActionSpec, Manifest, no_sla, no_side_effects, no_documentation, validate_manifest, check_head,
  check_actions, check_action, check_naming, check_base, check_schemas, action_warnings, if_missing,
  is_valid_id, is_valid_semver, has_prefix, is_blank, non_empty, is_currency, starts_lowercase,
  is_lowercase, is_digit, split_dots, add_to_first, parsed_json,
}
use jecp_server.Routes.Manifests.Published.{IsPriced, validate_manifest-IsPriced}

abbrev digit : Text → Option ℕ
digit [] = none
digit (c ∷ []) = some (c - 48)
digit (c ∷ d ∷ cs) = none

abbrev free : ℕ → Bool
free n = n == 0

abbrev object : Bool → Bool
object b = b

abbrev translate : ActionSpec Bool
translate = record {
  id = "translate";
  description = codes "Translates";
  pricing = record { base = codes "$ 5"; currency = "USDC"; model = "per_call" };
  trust_tier_required = none;
  rate_limit_rpm = some 60;
  input_schema = true;
  output_schema = true;
  examples = true ∷ [];
  sla = none;
  side_effects = none;
}

abbrev acme : Manifest Bool
acme = record {
  namespace = "acme";
  support_email = some "help@acme.example";
  documentation = none;
  capability = "texts";
  version = "1.0.0";
  description = codes " Texts ";
  endpoint = codes "https://acme.example";
  actions = translate ∷ [];
}

acme_passes :
    validate_manifest digit free object acme "acme"
    ≡ ok (no_documentation ∷ no_sla 0 ∷ no_side_effects 0 ∷ [])
unfolding validate_manifest check_head check_actions check_action check_naming check_base
    check_schemas action_warnings if_missing is_valid_id is_valid_semver has_prefix is_blank
    non_empty is_currency starts_lowercase is_lowercase is_digit split_dots add_to_first trim
    trim_start trim_end is_whitespace
acme_passes = refl

-- Another provider may not publish it.
acme_refused : validate_manifest digit free object acme "other" ≡ err (403, "NAMESPACE_MISMATCH")
unfolding validate_manifest check_head is_valid_id has_prefix is_blank starts_lowercase is_lowercase
    is_digit
acme_refused = refl

validate_manifest-IsPriced_example :
    IsPriced digit free (extract_action_price digit (parsed_json acme) "translate")
validate_manifest-IsPriced_example =
    validate_manifest-IsPriced digit free object acme "acme" "translate" acme_passes refl
