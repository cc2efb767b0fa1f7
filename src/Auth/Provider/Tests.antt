-- ===== src/Auth/Provider/Tests.antt =====
-- Two providers whose keys start alike, in src/routes/providers.rs. A key verifies where it is the
-- hash.
use jecp_server.Prelude.{
  ◌≡◌, refl, Bool, true, false, none, some, [], ◌∷◌, Text, codes, text_eq, ok, err,
}
use text.Mathlib.Text.{◌==◌ as str_eq}
use jecp_server.Services.Facilitator.{begins_with}
use jecp_server.Auth.Provider.{
  ProviderRow, Providers, authenticate, and_bearer, bearer, get_provider_for_auth, either_match,
  grace_match, or_db_error, first_where, by_active_prefix, by_previous_prefix, is_prefix, is_later,
}
use jecp_server.Auth.Provider.Keys.{IsIn, IsKeyOf, authenticate-IsKeyOf}

abbrev own : Text → Text
own s = s

abbrev same : Text → Text → Bool
same token hash = text_eq token hash

abbrev alpha : ProviderRow
alpha = record {
  id = 1;
  namespace = "alpha";
  status = "active";
  api_key_prefix = codes "jdb_pk_a1b2c";
  api_key_hash = codes "jdb_pk_a1b2c-one";
  previous_api_key_prefix = some (codes "jdb_pk_00000");
  previous_api_key_hash = some (codes "jdb_pk_00000-old");
  previous_key_valid_until = some 100;
  dns_verified = true;
  stripe_account_verified = true;
}

abbrev beta : ProviderRow
beta = record alpha {
  id = 2;
  namespace = "beta";
  api_key_hash = codes "jdb_pk_a1b2c-two";
  previous_api_key_prefix = none;
}

abbrev table : Providers
table = alpha ∷ beta ∷ []

in_grace :
    authenticate own same (some (codes "Bearer jdb_pk_00000-old")) true true 99 table ≡ ok alpha
unfolding authenticate and_bearer bearer begins_with get_provider_for_auth either_match grace_match
    or_db_error first_where by_active_prefix by_previous_prefix is_prefix is_later text_eq
in_grace = refl

after_grace :
    authenticate own same (some (codes "Bearer jdb_pk_00000-old")) true true 100 table
    ≡ err (401, "INVALID_API_KEY")
unfolding authenticate and_bearer bearer begins_with get_provider_for_auth either_match grace_match
    or_db_error first_where by_active_prefix by_previous_prefix is_prefix is_later text_eq
after_grace = refl

authenticate-IsKeyOf_example :
    (given : Text) × (and_bearer (some (codes "Bearer jdb_pk_00000-old")) ≡ some given)
    × (begins_with (codes "jdb_pk_") (own given) ≡ true)
    × IsIn alpha table
    × (str_eq alpha.status "deleted" ≡ false)
    × IsKeyOf same 99 (own given) alpha
authenticate-IsKeyOf_example =
    authenticate-IsKeyOf own same (some (codes "Bearer jdb_pk_00000-old")) true true 99 table alpha
      in_grace

-- Beta's own key: alpha's row comes first, with the same prefix.
beta_refused :
    authenticate own same (some (codes "Bearer jdb_pk_a1b2c-two")) true true 7 table
    ≡ err (401, "INVALID_API_KEY")
unfolding authenticate and_bearer bearer begins_with get_provider_for_auth either_match grace_match
    or_db_error first_where by_active_prefix by_previous_prefix is_prefix is_later text_eq
beta_refused = refl
