-- ===== src/Routes/Manifests/Published.antt =====
-- src/routes/manifests.rs with src/routes/invoke.rs: what the handlers of a call read in a manifest that
-- was published.
use Prim.Native.String.{String}
use text.Mathlib.Text.{◌==◌ as str_eq}
use jecp_server.Prelude.{
  ℕ, ◌==◌, ◌||◌, if◌then◌else◌, ◌≡◌, Bool, true, false, not, Option, some, List, [], ◌∷◌, map, Text,
  any, arith, ok, ok_or, >>=-eq-ok, guard-eq-ok, ok_or-eq-ok,
}
use jecp_server.Routes.ManifestRead.{
  extract_action_price, first_price, price_of, or_later, trim, trim_start, dollar,
}
use jecp_server.Routes.Manifests.{
  ActionSpec, Manifest, Warning, check_action, check_actions, validate_manifest, to_value,
  parsed_json, check_base, check_naming, check_head, PricingSpec,
}

not-true : {b : Bool} → not b ≡ true → b ≡ false
not-true h = ground arith

module _ {F : Type 0} (parse_f64 : Text → Option F) (le_zero : F → Bool) where
  -- The price that a call reads is there, and the test of its sign lets it through.
  abbrev pub IsPriced : Option F → Type 0
  IsPriced read = (price : F) × (read ≡ some price) × (le_zero price ≡ false)

  check_base-IsPriced :
      (pricing : PricingSpec) {u : Unit {0}}
      → check_base parse_f64 le_zero pricing ≡ ok u
      → IsPriced (parse_f64 (trim (trim_start (λ (c : ℕ). c == dollar) pricing.base)))
  unfolding check_base
  check_base-IsPriced pricing h =
      let (price, found, positive) =
        >>=-eq-ok
          (ok_or (parse_f64 (trim (trim_start (λ (c : ℕ). c == dollar) pricing.base)))
            (422, "INVALID_PRICING"))
          _ h in
      (price, ok_or-eq-ok _ _ found, not-true (guard-eq-ok (not (le_zero price)) _ positive))

  module _ {Value : Type 0} (is_object : Value → Bool) where
    check_action-IsPriced :
        (a : ActionSpec Value) {u : Unit {0}}
        → check_action parse_f64 le_zero is_object a ≡ ok u
        → IsPriced (parse_f64 (trim (trim_start (λ (c : ℕ). c == dollar) a.pricing.base)))
    unfolding check_action
    check_action-IsPriced a h =
        let (_, _, h1) = >>=-eq-ok (check_naming a) _ h in
        let (_, priced, _) = >>=-eq-ok (check_base parse_f64 le_zero a.pricing) _ h1 in
        check_base-IsPriced a.pricing priced

    check_actions-IsPriced :
        (actions : List (ActionSpec Value)) (action_id : String) {u : Unit {0}}
        → check_actions parse_f64 le_zero is_object actions ≡ ok u
        → any (λ a. str_eq a.id action_id) actions ≡ true
        → IsPriced (first_price parse_f64 action_id (map to_value actions))
    unfolding check_actions first_price to_value price_of or_later
    check_actions-IsPriced [] action_id h named = absurd (cc)
    check_actions-IsPriced (a ∷ actions) action_id h named =
        let (_, first, rest) = >>=-eq-ok (check_action parse_f64 le_zero is_object a) _ h in
        by_name (str_eq a.id action_id) (check_action-IsPriced a first)
          (λ among. check_actions-IsPriced actions action_id rest among) named
      where
        by_name :
            (same : Bool) {found later : Option F} {among : Bool}
            → IsPriced found
            → (among ≡ true → IsPriced later)
            → (same || among) ≡ true
            → IsPriced (if same then found else later)
        by_name true here there h = here
        by_name false here there h = there h

    -- Where a manifest passes the checks, a call of an action that it names finds a price in the document
    -- that is stored, and one that the test for zero and below does not refuse.
    pub validate_manifest-IsPriced :
        (m : Manifest Value) (expected_namespace action_id : String) {warnings : List Warning}
        → validate_manifest parse_f64 le_zero is_object m expected_namespace ≡ ok warnings
        → any (λ a. str_eq a.id action_id) m.actions ≡ true
        → IsPriced (extract_action_price parse_f64 (parsed_json m) action_id)
    unfolding validate_manifest extract_action_price parsed_json
    validate_manifest-IsPriced m expected_namespace action_id h named =
        let (_, _, h1) = >>=-eq-ok (check_head m expected_namespace) _ h in
        let (_, checked, _) =
          >>=-eq-ok (check_actions parse_f64 le_zero is_object m.actions) _ h1 in
        check_actions-IsPriced m.actions action_id checked named
