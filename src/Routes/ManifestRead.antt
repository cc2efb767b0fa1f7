-- ===== src/Routes/ManifestRead.antt =====
-- src/routes/invoke.rs: what the handlers read from a manifest, and the payments that a 402 offers.
-- Of the manifest's JSON the model has what the source reads, each field `none` where it is missing or, for
-- the texts and lists, of another type. Floats and their parser are parameters. A text is its code points.
pub mod Lookup
pub mod Offers
mod Tests
use Prim.Native.String.{String}
use text.Mathlib.Text.{◌==◌ as str_eq}
use jecp_server.Prelude.{
  ℕ, ◌+◌, Bool, true, false, ◌&&◌, ◌||◌, not, Option, none, some, List, [], ◌∷◌, ◌++◌, map, Text,
  codes, text_eq, any, ltb, leb, ◌==◌, if◌then◌else◌,
}
use jecp_server.Auth.Agent.{TrustTier, bronze, silver, gold, platinum}
use jecp_server.Routes.InvokeX402.{ManifestAction, is_str, find_action}

pub data Base (F : Type 0) : Type 0 where
  number : F → Base F
  written : Text → Base F
  other_kind : Base F

pub record Action (F : Type 0) : Type 0 where
  pub declared : ManifestAction
  pub pricing_base : Option (Base F)
  pub trust_tier_required : Option String
  pub streaming : Option Bool

-- The list of actions, where the manifest has one.
abbrev pub Manifest : Type 0 → Type 0
Manifest F = Option (List (Action F))

abbrev pub dollar : ℕ
dollar = 36

-- `char::is_whitespace`.
unfoldable pub is_whitespace : ℕ → Bool
is_whitespace c =
    (leb 9 c && leb c 13)
    || (any (λ (w : ℕ). c == w)
          (32 ∷ 0x85 ∷ 0xa0 ∷ 0x1680 ∷ 0x2028 ∷ 0x2029 ∷ 0x202f ∷ 0x205f ∷ 0x3000 ∷ [])
        || (leb 0x2000 c && leb c 0x200a))

-- `trim_start_matches`, and the same at the end.
unfoldable pub trim_start : (ℕ → Bool) → Text → Text
trim_start p [] = []
trim_start p (c ∷ cs) = if p c then trim_start p cs else c ∷ cs

unfoldable pub trim_end : (ℕ → Bool) → Text → Text
trim_end p [] = []
trim_end p (c ∷ cs) = let rest = trim_end p cs in if p c && text_eq rest [] then [] else c ∷ rest

unfoldable pub trim : Text → Text
unfolding trim_start trim_end is_whitespace
trim s = trim_end is_whitespace (trim_start is_whitespace s)

-- `to_lowercase`, on the letters that the comparison can tell.
unfoldable pub to_lowercase : Text → Text
to_lowercase = map (λ c. if leb 65 c && leb c 90 then c + 32 else c)

-- What the loop over the actions does with one that has the id: the price, or nothing yet.
pub data Found (F : Type 0) : Type 0 where
  stop : Option F → Found F
  keep_on : Found F

module _ {F : Type 0} (parse_f64 : Text → Option F) where
  unfoldable pub price_of : Option (Base F) → Found F
  unfolding trim_start trim
  price_of none = stop none
  price_of (some (number n)) = stop (some n)
  price_of (some (written s)) = stop (parse_f64 (trim (trim_start (λ (c : ℕ). c == dollar) s)))
  price_of (some other_kind) = keep_on

  unfoldable pub or_later : Option F → Found F → Option F
  or_later later (stop p) = p
  or_later later keep_on = later

  -- An action with no id ends the search.
  unfoldable pub first_price : String → List (Action F) → Option F
  unfolding price_of or_later
  first_price action_id [] = none
  first_price action_id (a ∷ actions) =
      let later = first_price action_id actions in
      elim a.declared.id [
        | none ↦ none
        | some name ↦
            if str_eq name action_id then or_later later (price_of a.pricing_base) else later
      ]

  unfoldable pub extract_action_price : Manifest F → String → Option F
  unfolding first_price
  extract_action_price none action_id = none
  extract_action_price (some actions) action_id = first_price action_id actions

unfoldable pub lowercased : Option String → Option Text
unfolding to_lowercase
lowercased none = none
lowercased (some s) = some (to_lowercase (codes s))

-- `filter_map(|v| v.as_str())`.
unfoldable pub texts : List (Option String) → List String
texts [] = []
texts (none ∷ vs) = texts vs
texts (some s ∷ vs) = s ∷ texts vs

module _ {F : Type 0} where
  unfoldable pub first_tier : String → List (Action F) → Option Text
  unfolding lowercased
  first_tier action_id [] = none
  first_tier action_id (a ∷ actions) =
      let later = first_tier action_id actions in
      elim a.declared.id [
        | none ↦ none
        | some name ↦ if str_eq name action_id then lowercased a.trust_tier_required else later
      ]

  unfoldable pub extract_action_trust_tier : Manifest F → String → Option Text
  unfolding first_tier
  extract_action_trust_tier none action_id = none
  extract_action_trust_tier (some actions) action_id = first_tier action_id actions

  -- `iter().find`.
  unfoldable pub find : String → List (Action F) → Option (Action F)
  unfolding is_str
  find action_id [] = none
  find action_id (a ∷ actions) =
      let rest = find action_id actions in if is_str action_id a.declared.id then some a else rest

  unfoldable pub extract_action_streaming : Manifest F → String → Bool
  unfolding find
  extract_action_streaming none action_id = false
  extract_action_streaming (some actions) action_id = elim (find action_id actions) [
    | none ↦ false
    | some a ↦ elim a.streaming [ none ↦ false | some b ↦ b ]
  ]

  unfoldable pub methods_of : Option (Action F) → List String
  unfolding texts
  methods_of none = []
  methods_of (some a) = elim a.declared.payment_methods [ none ↦ [] | some vs ↦ texts vs ]

  unfoldable pub extract_payment_methods : Manifest F → String → List String
  unfolding find methods_of
  extract_payment_methods none action_id = []
  extract_payment_methods (some actions) action_id = methods_of (find action_id actions)

unfoldable pub parse_trust_tier : Text → Option TrustTier
unfolding trim to_lowercase
parse_trust_tier s =
    let tier = to_lowercase (trim s) in
    if text_eq tier (codes "bronze")
    then some bronze
    else if text_eq tier (codes "silver")
    then some silver
    else if text_eq tier (codes "gold")
    then some gold
    else if text_eq tier (codes "platinum")
    then some platinum
    else none

-- The offers of `accepts[]`, with the parts of them that vary.
pub record X402AcceptParams : Type 0 where
  pub network : String
  pub asset : Text
  pub pay_to : Text
  pub facilitator_url : Text

pub data Accept (F : Type 0) : Type 0 where
  stripe_wallet : F → Text → Accept F
  exact : X402AcceptParams → Text → Bool → Text → Accept F

abbrev pub base_mainnet_usdc : Text
base_mainnet_usdc = codes "0x833589fcd6edb6e08f4c7c32d4f71b54bda02913"

unfoldable pub is_canonical_base_usdc : Text → Bool
unfolding trim to_lowercase
is_canonical_base_usdc asset = text_eq (to_lowercase (trim asset)) base_mainnet_usdc

unfoldable pub lists : String → List String → Bool
lists m = any (λ (s : String). str_eq s m)

unfoldable pub is_empty : List String → Bool
is_empty [] = true
is_empty (s ∷ ss) = false

-- `amount` is the text of the rounded micro price, and `splitter` the capability's id in hex digits.
module _ {F : Type 0} where
  unfoldable pub stripe_offer : Bool → F → Text → List (Accept F)
  stripe_offer allowed price topup_url = if allowed then stripe_wallet price topup_url ∷ [] else []

  unfoldable pub exact_offer : Bool → Option X402AcceptParams → Text → Text → List (Accept F)
  unfolding is_canonical_base_usdc
  exact_offer allowed none amount splitter = []
  exact_offer allowed (some cfg) amount splitter =
      if allowed then exact cfg amount (is_canonical_base_usdc cfg.asset) splitter ∷ [] else []

  unfoldable pub build_payment_accepts_inner :
      Option X402AcceptParams → Manifest F → String → F → Text → Text → Text → List (Accept F)
  unfolding extract_payment_methods lists is_empty stripe_offer exact_offer
  build_payment_accepts_inner x402 manifest action_id price topup_url amount splitter =
      let methods = extract_payment_methods manifest action_id in
      stripe_offer (lists "stripe" methods || is_empty methods) price topup_url
      ++ exact_offer (lists "x402" methods) x402 amount splitter

  unfoldable pub build_payment_accepts :
      Option X402AcceptParams
      → Bool
      → Manifest F
      → String
      → F
      → Text
      → Text
      → Text
      → List (Accept F)
  unfolding build_payment_accepts_inner
  build_payment_accepts configured x402_runtime_enabled manifest action_id price topup amount
        splitter =
      build_payment_accepts_inner (if x402_runtime_enabled then configured else none) manifest
        action_id price topup amount splitter

  -- The schemes of the `WWW-Authenticate` challenge.
  unfoldable pub accepted_schemes : Bool → Bool → Manifest F → String → List String
  unfolding extract_payment_methods lists is_empty
  accepted_schemes configured x402_runtime_enabled manifest action_id =
      let methods = extract_payment_methods manifest action_id in
      (if lists "stripe" methods || is_empty methods then "stripe" ∷ [] else [])
      ++ (if lists "x402" methods && (x402_runtime_enabled && configured) then "x402" ∷ [] else [])
