-- ===== src/Routes/Lifecycle/Publish.antt =====
-- src/routes/manifests.rs: the publication of a manifest. The decoders of UTF-8, JSON and YAML are
-- parameters, and the database draws the id.
use Prim.Native.String.{String, ◌++◌}
use jecp_server.Prelude.{
  ℕ, ◌*◌, Bool, ◌&&◌, not, Option, none, some, List, [], map, Text, codes, length, leb, text_eq,
  if◌then◌else◌, Result, ok, err, guard, ok_or, ◌>>=◌, ◌>>◌,
}
use jecp_server.Auth.Provider.{ProviderRow, AuthError}
use jecp_server.Services.Facilitator.{contains}
use jecp_server.Services.Relayer.BigEndian.{Bytes}
use jecp_server.Services.Capabilities.{
  CapabilityRow, Store, SaveError, unique_violation, other_failure, publish_manifest,
}
use jecp_server.Routes.ManifestRead.{Action}
use jecp_server.Routes.Manifests.{Manifest, Warning, validate_manifest, to_value}
use jecp_server.Routes.Lifecycle.{Call, caller}

-- The content type that is taken where there is none, or none that is text.
unfoldable pub type_or_yaml : Option Text → Text
type_or_yaml none = codes "application/x-yaml"
type_or_yaml (some t) = t

unfoldable pub save_error : SaveError → AuthError
save_error unique_violation = (409, "VERSION_EXISTS")
save_error other_failure = (500, "DB_ERROR")

abbrev pub max_manifest : ℕ
max_manifest = 256 * 1024

-- Crates that read the request's body.
pub record Decoders (Value : Type 0) : Type 0 where
  pub trim : Text → Text
  pub from_utf8 : Bytes → Option Text
  pub from_json : Text → Option (Manifest Value)
  pub from_yaml : Text → Option (Manifest Value)

module _ {F Value : Type 0} (parse_f64 : Text → Option F) (le_zero : F → Bool)
    (is_object : Value → Bool) (decoders : Decoders Value) where
  unfoldable pub parse : Option Text → Text → Option (Manifest Value)
  unfolding contains type_or_yaml
  parse content_type text =
      if contains (type_or_yaml content_type) (codes "json")
      then decoders.from_json text
      else decoders.from_yaml text

  -- The row that the publication of a manifest inserts; its status is set by the transaction.
  unfoldable pub row_of : ℕ → ProviderRow → Manifest Value → CapabilityRow
  unfolding to_value
  row_of id provider m = record {
    id = id;
    provider_id = provider.id;
    capability_name = m.capability;
    version = m.version;
    full_id = m.namespace ++ ("/" ++ m.capability);
    status = [];
    sunset_at = none;
    actions = map (λ (a : Action F). a.declared) (map to_value m.actions);
  }

  unfoldable pub answer_saved :
      List Warning
      → Result SaveError (ℕ × Text) × Store
      → Result AuthError (Text × List Warning) × Store
  unfolding save_error
  answer_saved warnings (ok saved, s) = (ok (saved.1, warnings), s)
  answer_saved warnings (err e, s) = (err (save_error e), s)

  module _ (trim : Text → Text) (bcrypt_verify : Text → Text → Bool)
      (derive_capability_id : String → String → String → Bytes) where
    -- What is published: the provider, its manifest and the warnings.
    unfoldable pub check_publication :
        Call → Option Text → Bytes → Result AuthError (ProviderRow × Manifest Value × List Warning)
    unfolding caller parse validate_manifest
    check_publication c content_type body = do
      provider ← caller trim bcrypt_verify derive_capability_id c
      text ← ok_or (decoders.from_utf8 body) (400, "INVALID_ENCODING")
      guard (not (text_eq (decoders.trim text) [])) (400, "EMPTY_BODY")
      guard (leb (length body) max_manifest) (413, "MANIFEST_TOO_LARGE")
      m ← ok_or (parse content_type text) (400, "PARSE_ERROR")
      warnings ← validate_manifest parse_f64 le_zero is_object m provider.namespace
      ok (provider, m, warnings)

    unfoldable pub save :
        Call
        → ℕ
        → Result AuthError (ProviderRow × Manifest Value × List Warning)
        → Store
        → Result AuthError (Text × List Warning) × Store
    unfolding row_of publish_manifest answer_saved
    save c id (err e) s = (err e, s)
    save c id (ok (provider, m, warnings)) s = answer_saved warnings (
        publish_manifest c.update_ok (row_of id provider m)
          (provider.dns_verified && provider.stripe_account_verified) s)

    -- The status of the new capability with the warnings, and the store.
    unfoldable pub handle_publish :
        Call → Option Text → Bytes → ℕ → Store → Result AuthError (Text × List Warning) × Store
    unfolding check_publication save
    handle_publish c content_type body id s = save c id (check_publication c content_type body) s
