-- ===== src/Routes/Lifecycle/Promoted.antt =====
-- src/routes/manifests.rs: what a promotion takes and does.
use Prim.Native.String.{String}
use jecp_server.Prelude.{
  codes, ◌==◌, ◌&&◌, if◌then◌else◌, ℕ, ◌≡◌, ap, ◌∙◌, Bool, true, some, map, Text, text_eq, any, ok,
  guard, >>=-eq-ok, ok-injective,
}
use jecp_server.Auth.Provider.{ProviderRow, authenticate}
use jecp_server.Auth.Provider.Keys.{IsIn, IsKeyOf, authenticate-IsKeyOf}
use jecp_server.Services.Relayer.BigEndian.{Bytes}
use jecp_server.Services.Capabilities.{CapabilityRow, Capabilities, Store, find_owned}
use jecp_server.Routes.Lifecycle.{Call, caller}

module _ (trim : Text → Text) (bcrypt_verify : Text → Text → Bool)
    (derive_capability_id : String → String → String → Bytes) where
  -- A caller is a provider of the table, by a key of its own.
  pub caller-IsKeyOf :
      (c : Call) (provider : ProviderRow)
      → caller trim bcrypt_verify derive_capability_id c ≡ ok provider
      → (token : Text) × IsIn provider c.providers × IsKeyOf bcrypt_verify c.now token provider
  unfolding caller
  caller-IsKeyOf c provider h =
      let (known, k0, k1) =
        >>=-eq-ok
          (authenticate trim bcrypt_verify c.authorization c.has_pool c.lookup_ok c.now c.providers)
          _ h in
      let (_, _, k2) = >>=-eq-ok (guard c.has_pool (503, "DB_UNAVAILABLE")) _ k1 in
      let (given, _, _, is_in, _, keyed) =
        authenticate-IsKeyOf trim bcrypt_verify c.authorization c.has_pool c.lookup_ok c.now
          c.providers provider (k0 ∙ ap (λ (p : ProviderRow). ok p) (ok-injective k2)) in
      (trim given, is_in, keyed)

  -- A verified provider, by a key of its own, and a capability of it that waits for promotion.
  pub record IsPromotable (c : Call) (id : ℕ) (before : Capabilities)
      (found : ProviderRow × CapabilityRow) : Type 0 where
    pub token : Text
    pub member : IsIn (found.0) c.providers
    pub by_key : IsKeyOf bcrypt_verify c.now token (found.0)
    pub dns : (found.0).dns_verified ≡ true
    pub stripe : (found.0).stripe_account_verified ≡ true
    pub own : find_owned id (found.0).id before ≡ some found.1

  -- What the handler leaves where it answers that it promoted: the rows of the id that still wait are
  -- active, all other rows as they were.
  pub record IsPromoted (c : Call) (id : ℕ) (before : Capabilities) (s after : Store) : Type 0 where
    pub found : ProviderRow × CapabilityRow
    pub promotable : IsPromotable c id before found
    pub waited : (found.1).status ≡ codes "submitted"
    pub still_waits :
        any (λ row. row.id == id && text_eq row.status (codes "submitted")) s.capabilities ≡ true
    pub written :
        after.capabilities
        ≡ map
            (λ row.
              if row.id == id && text_eq row.status (codes "submitted")
              then record row { status = codes "active" }
              else row)
            s.capabilities
