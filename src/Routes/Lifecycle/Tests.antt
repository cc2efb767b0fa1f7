-- ===== src/Routes/Lifecycle/Tests.antt =====
-- Runs of src/routes/manifests.rs: a provider publishes, promotes and ends a capability. A key verifies
-- where it is the hash.
use Prim.Native.String.{String}
use jecp_server.Prelude.{
  ℕ, arith, ◌≡◌, refl, Bool, true, false, none, some, [], ◌∷◌, Text, codes, text_eq, ok, ◌-◌, ◌==◌,
  Option, List,
}
use jecp_server.Services.Facilitator.{begins_with}
use jecp_server.Auth.Provider.{
  ProviderRow, authenticate, and_bearer, bearer, get_provider_for_auth, either_match, grace_match,
  or_db_error, first_where, by_active_prefix, by_previous_prefix, is_prefix, is_later,
}
use jecp_server.Services.Relayer.BigEndian.{Bytes, zeros}
use jecp_server.Routes.InvokeX402.{ManifestAction, lists_x402, is_str}
use jecp_server.Services.Capabilities.{
  CapabilityRow, Store, publish_manifest, clashes, initial_status, find_owned, promote_capability,
  is_submitted, promote_row, sunset_capability, is_open, sunset_row,
}
use jecp_server.Routes.Lifecycle.{
  Call, handle_promote, on_checked, check_promotion, caller, owned, promote, handle_sunset,
  check_sunset, end, register_x402_capabilities_best_effort, authorization_of, authorizations,
}
use jecp_server.Services.Capabilities.Rows.{IsEnded}
use jecp_server.Routes.Lifecycle.History.{done, publication, promotion}
use jecp_server.Routes.Lifecycle.Ended.{IsGone, handle_sunset-IsEnded}
use jecp_server.Routes.Manifests.{
  Manifest, Warning, no_sla, no_side_effects, no_documentation, no_support_email,
}
use jecp_server.Routes.ManifestRead.{trim}
use jecp_server.Routes.Lifecycle.Publish.{Decoders}

abbrev own : Text → Text
own s = s

abbrev same : Text → Text → Bool
same token hash = text_eq token hash

abbrev derive : String → String → String → Bytes
derive namespace action version = 7 ∷ []

abbrev provider : ProviderRow
provider = record {
  id = 5;
  namespace = "alpha";
  status = "active";
  api_key_prefix = codes "jdb_pk_a1b2c";
  api_key_hash = codes "jdb_pk_a1b2c-one";
  previous_api_key_prefix = none;
  previous_api_key_hash = none;
  previous_key_valid_until = none;
  dns_verified = true;
  stripe_account_verified = true;
}

abbrev call : Call
call = record {
  authorization = some (codes "Bearer jdb_pk_a1b2c-one");
  has_pool = true;
  lookup_ok = true;
  providers = provider ∷ [];
  now = 100;
  query_ok = true;
  update_ok = true;
  x402 = true;
  payout_address = some (9 ∷ []);
}

-- An action that accepts x402.
abbrev action : ManifestAction
action = record { id = some "run"; payment_methods = some (some "x402" ∷ []) }

abbrev new : CapabilityRow
new = record {
  id = 1;
  provider_id = 5;
  capability_name = "echo";
  version = "1.0.0";
  full_id = "alpha/echo";
  status = [];
  sunset_at = none;
  actions = action ∷ [];
}

abbrev empty : Store
empty = record { capabilities = []; history = [] }

abbrev start : Store
start = (publish_manifest true new false empty).1

abbrev running : Store
running = (handle_promote own same derive call 1 start.capabilities start).1

-- The relayer is asked with the shares of the source and nothing of the provider's.
registers :
    register_x402_capabilities_best_effort own same derive call provider new
    ≡ record {
      capability_id = 7 ∷ [];
      provider = 9 ∷ [];
      provider_bps = 8500;
      hub_bps = 1000;
      reserve_bps = 500;
      nonce = zeros 32;
      deadline = 0;
    }
      ∷ []
unfolding register_x402_capabilities_best_effort authorization_of authorizations lists_x402 is_str
    zeros
registers = refl

-- The promotion comes between what the sunset reads and what it writes.
sunsets : (handle_sunset own same derive call 1 start.capabilities running).0 ≡ ok true
unfolding publish_manifest clashes initial_status handle_promote on_checked check_promotion caller
    owned find_owned promote promote_capability is_submitted promote_row authenticate and_bearer
    bearer begins_with get_provider_for_auth either_match grace_match or_db_error first_where
    by_active_prefix by_previous_prefix is_prefix is_later text_eq handle_sunset check_sunset end
    sunset_capability is_open sunset_row
sunsets = refl

-- A later promotion that read the row as it was before.
abbrev finally : Store
finally =
    (handle_promote own same derive call 1 start.capabilities
      (handle_sunset own same derive call 1 start.capabilities running).1).1

handle_sunset-IsEnded_example :
    IsEnded 1 100 finally.capabilities × IsGone 101 1 finally.capabilities
handle_sunset-IsEnded_example =
    handle_sunset-IsEnded own same derive call 1 start.capabilities running finally 101
      (promotion call 1 start.capabilities (publication true new false done)) sunsets
      (promotion call 1 start.capabilities done) (omega arith)

abbrev manifest : Manifest Bool
manifest = record {
  namespace = "alpha";
  support_email = none;
  documentation = none;
  capability = "echo";
  version = "1.0.0";
  description = codes "Echo";
  endpoint = codes "https://alpha.example";
  actions =
      record {
        id = "run";
        description = codes "Runs";
        pricing = record { base = codes "$ 5"; currency = "USDC"; model = "per_call" };
        trust_tier_required = none;
        rate_limit_rpm = some 60;
        input_schema = true;
        output_schema = true;
        examples = true ∷ [];
        sla = none;
        side_effects = none;
      }
      ∷ [];
}

abbrev digit : Text → Option ℕ
digit [] = none
digit (c ∷ cs) = some (c - 48)

abbrev free : ℕ → Bool
free n = n == 0

abbrev any_value : Bool → Bool
any_value b = b

abbrev decoders : Decoders Bool
decoders = record {
  trim = λ s. s;
  from_utf8 = λ b. some b;
  from_json = λ s. some manifest;
  from_yaml = λ s. none;
}

abbrev warnings : List Warning
warnings = no_support_email ∷ no_documentation ∷ no_sla 0 ∷ no_side_effects 0 ∷ []
