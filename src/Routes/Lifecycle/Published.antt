-- ===== src/Routes/Lifecycle/Published.antt =====
-- src/routes/manifests.rs: what a publication takes and does.
use Prim.Native.String.{String, ◌++◌}
use text.Mathlib.Text.{◌==◌ as str_eq}
use jecp_server.Prelude.{
  ℕ, ◌==◌, ◌||◌, ◌⊎◌, true, codes, map, ◌≡◌, Bool, false, ◌&&◌, Option, none, List, ◌∷◌, Text, any,
  ok,
}
use jecp_server.Auth.Provider.{ProviderRow}
use jecp_server.Auth.Provider.Keys.{IsIn, IsKeyOf}
use jecp_server.Services.Relayer.BigEndian.{Bytes}
use jecp_server.Services.Capabilities.{Store}
use jecp_server.Routes.ManifestRead.{Action}
use jecp_server.Routes.Manifests.{Manifest, Warning, validate_manifest, to_value}
use jecp_server.Routes.Lifecycle.{Call}
use jecp_server.Routes.Lifecycle.Publish.{Decoders}

module _ {F Value : Type 0} (parse_f64 : Text → Option F) (le_zero : F → Bool)
    (is_object : Value → Bool) (decoders : Decoders Value) (trim : Text → Text)
    (bcrypt_verify : Text → Text → Bool)
    (derive_capability_id : String → String → String → Bytes) where
  -- A manifest that passes the checks for the namespace of a provider that bears a key of its own, in
  -- a version that is new, is added; it is active at once where the provider is verified both ways.
  pub record IsAdded (c : Call) (id : ℕ) (status : Text) (warnings : List Warning) (s after : Store)
      : Type 0 where
    pub provider : ProviderRow
    pub m : Manifest Value
    pub token : Text
    pub member : IsIn provider c.providers
    pub by_key : IsKeyOf bcrypt_verify c.now token provider
    pub checked : validate_manifest parse_f64 le_zero is_object m provider.namespace ≡ ok warnings
    pub is_new :
        any
          (λ row.
            row.id == id
            || (row.provider_id == provider.id
                && (str_eq row.capability_name m.capability && str_eq row.version m.version)))
          s.capabilities
        ≡ false
    pub starts_as :
        ((provider.dns_verified ≡ true)
          × (provider.stripe_account_verified ≡ true)
          × (status ≡ codes "active"))
        ⊎ (((provider.dns_verified && provider.stripe_account_verified) ≡ false)
            × (status ≡ codes "submitted"))
    pub added :
        after.capabilities
        ≡ record {
          id = id;
          provider_id = provider.id;
          capability_name = m.capability;
          version = m.version;
          full_id = m.namespace ++ ("/" ++ m.capability);
          status = status;
          sunset_at = none;
          actions = map (λ (a : Action F). a.declared) (map to_value m.actions);
        }
          ∷ s.capabilities
