-- ===== src/Routes/Lifecycle.antt =====
-- src/routes/manifests.rs: who calls, and the promotion and sunset of a capability. A handler gets the
-- rows that its query reads, `before`, and the store that its statement meets: other requests may come
-- between.
pub mod History
pub mod Ended
pub mod Promoted
pub mod Publish
pub mod Published
mod Tests
use Prim.Native.String.{String}
use text.Mathlib.Text.{◌==◌ as str_eq}
use jecp_server.Prelude.{
  ℕ, Bool, true, false, ◌&&◌, ◌||◌, not, Option, none, some, List, [], ◌∷◌, ◌++◌, map, Text, codes,
  text_eq, any, ◌==◌, if◌then◌else◌, Result, ok, err, guard, ok_or, ◌>>=◌, ◌>>◌,
}
use jecp_server.Auth.Provider.{ProviderRow, Providers, AuthError, authenticate, or_db_error}
use jecp_server.Routes.InvokeX402.{ManifestAction, lists_x402}
use jecp_server.Services.Relayer.BigEndian.{Bytes, zeros}
use jecp_server.Services.Relayer.Transaction.{RegisterAuthorization}
use jecp_server.Services.Capabilities.{
  CapabilityRow, Capabilities, HistoryRow, Store, SaveError, active, submitted, is_over, clashes,
  initial_status, publish_manifest, is_submitted, promote_row, promote_capability, is_open,
  sunset_row, sunset_capability, find_owned,
}

-- What a request brings, and what the databases answer to its queries and its statement.
pub record Call : Type 0 where
  pub authorization : Option Text
  pub has_pool : Bool
  pub lookup_ok : Bool
  pub providers : Providers
  pub now : ℕ
  pub query_ok : Bool
  pub update_ok : Bool
  pub x402 : Bool
  pub payout_address : Option Bytes

-- The action, if it accepts x402, with the shares of the source, and nothing of the provider's.
unfoldable pub authorization_of :
    (String → String → String → Bytes)
    → Bytes
    → String
    → String
    → ManifestAction
    → List RegisterAuthorization
unfolding lists_x402 zeros
authorization_of derive_capability_id provider_address namespace version action = elim action.id [
  | none ↦ []
  | some action_id ↦
      if lists_x402 (some action)
      then record {
        capability_id = derive_capability_id namespace action_id version;
        provider = provider_address;
        provider_bps = 8500;
        hub_bps = 1000;
        reserve_bps = 500;
        nonce = zeros 32;
        deadline = 0;
      }
        ∷ []
      else []
]

unfoldable pub authorizations :
    (ManifestAction → List RegisterAuthorization) → List ManifestAction → List RegisterAuthorization
authorizations of_action [] = []
authorizations of_action (a ∷ actions) = of_action a ++ authorizations of_action actions

module _ (trim : Text → Text) (bcrypt_verify : Text → Text → Bool)
    (derive_capability_id : String → String → String → Bytes) where
  -- What the relayer is asked to register: its answers change nothing.
  unfoldable pub register_x402_capabilities_best_effort :
      Call → ProviderRow → CapabilityRow → List RegisterAuthorization
  unfolding authorization_of authorizations
  register_x402_capabilities_best_effort c provider row =
      if c.x402
      then elim c.payout_address [
        | none ↦ []
        | some address ↦
            authorizations
              (authorization_of derive_capability_id address provider.namespace row.version)
              row.actions
      ]
      else []

  unfoldable pub owned : Call → ProviderRow → ℕ → Capabilities → Result AuthError CapabilityRow
  unfolding find_owned or_db_error
  owned c provider id before = do
    or_db_error (guard c.query_ok tt)
    ok_or (find_owned id provider.id before) (404, "NOT_FOUND")

  unfoldable pub caller : Call → Result AuthError ProviderRow
  unfolding authenticate
  caller c = do
    provider ←
        authenticate trim bcrypt_verify c.authorization c.has_pool c.lookup_ok c.now c.providers
    guard c.has_pool (503, "DB_UNAVAILABLE")
    ok provider

  unfoldable pub check_promotion :
      Call → ℕ → Capabilities → Result AuthError (ProviderRow × CapabilityRow)
  unfolding caller owned
  check_promotion c id before = do
    provider ← caller c
    guard provider.dns_verified (424, "DNS_NOT_VERIFIED")
    guard provider.stripe_account_verified (424, "STRIPE_NOT_VERIFIED")
    row ← owned c provider id before
    ok (provider, row)

  -- Whether the status changed, and what the relayer was asked to register.
  unfoldable pub promote :
      Call
      → ℕ
      → ProviderRow × CapabilityRow
      → Store
      → Result AuthError Bool × Store × List RegisterAuthorization
  unfolding promote_capability register_x402_capabilities_best_effort or_db_error
  promote c id found s =
      if text_eq (found.1).status active
      then (ok false, s, [])
      else if text_eq (found.1).status submitted
      then (let done = promote_capability c.update_ok id s in
          (or_db_error done.0, done.1, register_x402_capabilities_best_effort c found.0 found.1))
      else (err (409, "INVALID_STATE_TRANSITION"), s, [])

  unfoldable pub on_checked :
      {A : Type 0}
      → Result AuthError A
      → (A → Store → Result AuthError Bool × Store × List RegisterAuthorization)
      → Store
      → Result AuthError Bool × Store × List RegisterAuthorization
  on_checked (ok a) next s = next a s
  on_checked (err e) next s = (err e, s, [])

  -- The handlers of the same names.
  unfoldable pub handle_promote :
      Call → ℕ → Capabilities → Store → Result AuthError Bool × Store × List RegisterAuthorization
  unfolding on_checked check_promotion promote
  handle_promote c id before s = on_checked (check_promotion c id before) (promote c id) s

  unfoldable pub check_sunset :
      Call → ℕ → Capabilities → Result AuthError (ProviderRow × CapabilityRow)
  unfolding caller owned
  check_sunset c id before = do
    provider ← caller c
    row ← owned c provider id before
    ok (provider, row)

  -- The status of a row that is over is not changed, and the answer is the same.
  unfoldable pub end :
      Call
      → ℕ
      → ProviderRow × CapabilityRow
      → Store
      → Result AuthError Bool × Store × List RegisterAuthorization
  unfolding sunset_capability or_db_error
  end c id found s =
      if text_eq (found.1).status (codes "sunset")
      then (ok false, s, [])
      else (let done = sunset_capability c.update_ok c.now id (found.0).id s in
          (or_db_error done.0, done.1, []))

  unfoldable pub handle_sunset :
      Call → ℕ → Capabilities → Store → Result AuthError Bool × Store × List RegisterAuthorization
  unfolding on_checked check_sunset end
  handle_sunset c id before s = on_checked (check_sunset c id before) (end c id) s
