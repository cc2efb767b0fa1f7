-- ===== src/Routes/ManifestRead/Offers.antt =====
-- src/routes/invoke.rs: the payments that a 402 offers, against its challenge and the x402 branch.
use Prim.Native.String.{String}
use mathlib.Core.Option.{Option}
use jecp_server.Prelude.{◌≡◌, Bool, true, false, ◌&&◌, none, some, map, Text, any, arith}
use jecp_server.Routes.InvokeX402.{action_accepts_x402}
use jecp_server.Routes.ManifestRead.{
  Manifest, X402AcceptParams, Accept, stripe_wallet, exact, stripe_offer, exact_offer,
  build_payment_accepts, build_payment_accepts_inner, accepted_schemes,
}
use jecp_server.Routes.ManifestRead.Lookup.{
  declared_actions, extract_payment_methods-action_accepts_x402,
}

module _ {F : Type 0} where
  abbrev pub scheme_of : Accept F → String
  scheme_of (stripe_wallet price topup_url) = "stripe"
  scheme_of (exact cfg amount domain splitter) = "x402"

  abbrev pub is_exact : Accept F → Bool
  is_exact (stripe_wallet price topup_url) = false
  is_exact (exact cfg amount domain splitter) = true

abbrev pub is_configured : Option X402AcceptParams → Bool
is_configured none = false
is_configured (some cfg) = true

module _ {F : Type 0} (configured : Option X402AcceptParams) (enabled : Bool)
    (manifest : Manifest F) (action_id : String) (price : F) (topup amount splitter : Text) where
  -- The challenge of a 402 names the schemes of its offers, in their order.
  pub accepted_schemes-build_payment_accepts :
      map scheme_of
        (build_payment_accepts configured enabled manifest action_id price topup amount splitter)
      ≡ accepted_schemes (is_configured configured) enabled manifest action_id
  unfolding build_payment_accepts build_payment_accepts_inner accepted_schemes stripe_offer
      exact_offer
  accepted_schemes-build_payment_accepts = ground arith

  -- A 402 offers x402 exactly when it is configured and enabled and the x402 branch would take the action.
  pub build_payment_accepts_exact :
      any is_exact
        (build_payment_accepts configured enabled manifest action_id price topup amount splitter)
      ≡ (is_configured configured
          && (enabled && action_accepts_x402 (declared_actions manifest) action_id))
  unfolding build_payment_accepts build_payment_accepts_inner stripe_offer exact_offer
  build_payment_accepts_exact =
      ground (arith, extract_payment_methods-action_accepts_x402 manifest action_id)
