-- ===== src/Routes/Manifests.antt =====
-- src/routes/manifests.rs: the checks of a manifest that a provider publishes, and the document that
-- is stored. Floats, their parser and the test of their sign, and JSON values are parameters. A text is
-- its code points where the checks look into it: they let nothing but ASCII through where they count
-- bytes. A refusal is its status and code.
pub mod Published
mod Tests
use Prim.Native.String.{String}
use text.Mathlib.Text.{◌==◌ as str_eq}
use jecp_server.Prelude.{
  ℕ, ◌+◌, Bool, true, false, ◌&&◌, ◌||◌, not, Option, none, some, List, [], ◌∷◌, ◌++◌, map, Text,
  codes, text_eq, any, all, length, ltb, leb, ◌==◌, if◌then◌else◌, Result, ok, err, guard, ok_or,
  ◌>>=◌, ◌>>◌,
}
use jecp_server.Routes.ManifestRead.{
  Action, written, dollar, is_whitespace, trim_start, trim_end, trim,
}
use jecp_server.Routes.ManifestRead

abbrev pub Refusal : Type 0
Refusal = ℕ × String

pub record PricingSpec : Type 0 where
  pub base : Text
  pub currency : String
  pub model : String

pub record ActionSpec (Value : Type 0) : Type 0 where
  pub id : String
  pub description : Text
  pub pricing : PricingSpec
  pub trust_tier_required : Option String
  pub rate_limit_rpm : Option ℕ
  pub input_schema : Value
  pub output_schema : Value
  pub examples : List Value
  pub sla : Option Value
  pub side_effects : Option Value

-- The fields that the checks read.
pub record Manifest (Value : Type 0) : Type 0 where
  pub namespace : String
  pub support_email : Option String
  pub documentation : Option String
  pub capability : String
  pub version : String
  pub description : Text
  pub endpoint : Text
  pub actions : List (ActionSpec Value)

unfoldable pub is_lowercase : ℕ → Bool
is_lowercase c = leb 97 c && leb c 122

unfoldable pub is_digit : ℕ → Bool
is_digit c = leb 48 c && leb c 57

abbrev hyphen : ℕ
hyphen = 45

abbrev full_stop : ℕ
full_stop = 46

unfoldable pub starts_lowercase : Text → Bool
unfolding is_lowercase
starts_lowercase [] = false
starts_lowercase (c ∷ cs) = is_lowercase c

unfoldable pub is_valid_id : Text → ℕ → ℕ → Bool
unfolding starts_lowercase is_lowercase is_digit
is_valid_id s least most =
    if ltb (length s) least || ltb most (length s)
    then false
    else starts_lowercase s && all (λ c. is_lowercase c || (is_digit c || c == hyphen)) s

-- `split('.')`.
unfoldable pub add_to_first : ℕ → List Text → List Text
add_to_first c [] = (c ∷ []) ∷ []
add_to_first c (part ∷ parts) = (c ∷ part) ∷ parts

unfoldable pub split_dots : Text → List Text
unfolding add_to_first
split_dots [] = [] ∷ []
split_dots (c ∷ cs) =
    let rest = split_dots cs in if c == full_stop then [] ∷ rest else add_to_first c rest

unfoldable pub is_blank : Text → Bool
is_blank [] = true
is_blank (c ∷ cs) = false

unfoldable pub is_valid_semver : Text → Bool
unfolding split_dots is_blank is_digit
is_valid_semver s =
    let parts = split_dots s in
    length parts == 3 && all (λ p. not (is_blank p) && all is_digit p) parts

-- `!is_empty()` of a list.
unfoldable pub non_empty : {A : Type 0} → List A → Bool
non_empty [] = false
non_empty (x ∷ xs) = true

unfoldable pub has_prefix : Text → Text → Bool
has_prefix [] s = true
has_prefix (p ∷ ps) [] = false
has_prefix (p ∷ ps) (c ∷ cs) = p == c && has_prefix ps cs

unfoldable pub is_currency : String → Bool
is_currency c = str_eq c "USD" || (str_eq c "USDC" || (str_eq c "JPY" || str_eq c "both"))

pub data Warning : Type 0 where
  no_support_email : Warning
  no_documentation : Warning
  no_rate_limit_rpm : ℕ → Warning
  no_sla : ℕ → Warning
  no_side_effects : ℕ → Warning

unfoldable pub if_missing : {A : Type 0} → Option A → Warning → List Warning
if_missing none w = w ∷ []
if_missing (some a) w = []

module _ {Value : Type 0} where
  unfoldable pub check_naming : ActionSpec Value → Result Refusal (Unit {0})
  unfolding trim trim_start trim_end is_valid_id is_blank
  check_naming a = do
    guard (is_valid_id (codes a.id) 1 64) (422, "INVALID_ACTION_ID")
    guard (not (is_blank (trim a.description))) (422, "MISSING_ACTION_DESCRIPTION")

  -- The warnings of the actions, from the given index on.
  unfoldable pub action_warnings : ℕ → List (ActionSpec Value) → List Warning
  unfolding if_missing
  action_warnings i [] = []
  action_warnings i (a ∷ actions) =
      if_missing a.rate_limit_rpm (no_rate_limit_rpm i)
      ++ (if_missing a.sla (no_sla i)
          ++ (if_missing a.side_effects (no_side_effects i) ++ action_warnings (i + 1) actions))

  -- The checks on the manifest itself.
  unfoldable pub check_head : Manifest Value → String → Result Refusal (Unit {0})
  unfolding is_valid_id is_valid_semver has_prefix trim is_blank non_empty
  check_head m expected_namespace = do
    guard (is_valid_id (codes m.namespace) 3 32) (422, "INVALID_NAMESPACE")
    guard (str_eq m.namespace expected_namespace) (403, "NAMESPACE_MISMATCH")
    guard (is_valid_id (codes m.capability) 3 64) (422, "INVALID_CAPABILITY")
    guard (is_valid_semver (codes m.version)) (422, "INVALID_VERSION")
    guard (has_prefix (codes "https://") m.endpoint) (422, "INVALID_ENDPOINT")
    guard (not (is_blank (trim m.description))) (422, "MISSING_DESCRIPTION")
    guard (non_empty m.actions) (422, "NO_ACTIONS")

unfoldable pub check_schemas :
    {Value : Type 0} → (Value → Bool) → ActionSpec Value → Result Refusal (Unit {0})
unfolding is_currency non_empty
check_schemas is_object a = do
  guard (is_currency a.pricing.currency) (422, "INVALID_CURRENCY")
  guard (is_object a.input_schema) (422, "INVALID_INPUT_SCHEMA")
  guard (is_object a.output_schema) (422, "INVALID_OUTPUT_SCHEMA")
  guard (non_empty a.examples) (422, "MISSING_EXAMPLES")

module _ {F : Type 0} (parse_f64 : Text → Option F) (le_zero : F → Bool) where
  unfoldable pub check_base : PricingSpec → Result Refusal (Unit {0})
  unfolding trim trim_start trim_end
  check_base pricing = do
    price ←
        ok_or (parse_f64 (trim (trim_start (λ (c : ℕ). c == dollar) pricing.base)))
          (422, "INVALID_PRICING")
    guard (not (le_zero price)) (422, "INVALID_PRICING")

  module _ {Value : Type 0} (is_object : Value → Bool) where
    unfoldable pub check_action : ActionSpec Value → Result Refusal (Unit {0})
    unfolding check_naming check_base check_schemas
    check_action a = do check_naming a; check_base a.pricing; check_schemas is_object a

    unfoldable pub check_actions : List (ActionSpec Value) → Result Refusal (Unit {0})
    unfolding check_action
    check_actions [] = ok tt
    check_actions (a ∷ actions) = check_action a >> check_actions actions

    unfoldable pub validate_manifest : Manifest Value → String → Result Refusal (List Warning)
    unfolding check_head check_actions action_warnings if_missing
    validate_manifest m expected_namespace = do
      check_head m expected_namespace
      check_actions m.actions
      ok (
          if_missing m.support_email no_support_email
          ++ (if_missing m.documentation no_documentation ++ action_warnings 0 m.actions))

-- `to_value` of an action: the fields of the struct, and no other.
unfoldable pub to_value : {F Value : Type 0} → ActionSpec Value → Action F
to_value a = record {
  declared = record { id = some a.id; payment_methods = none };
  pricing_base = some (written a.pricing.base);
  trust_tier_required = a.trust_tier_required;
  streaming = none;
}

-- The document that is stored.
unfoldable pub parsed_json : {F Value : Type 0} → Manifest Value → ManifestRead.Manifest F
unfolding to_value
parsed_json m = some (map to_value m.actions)
