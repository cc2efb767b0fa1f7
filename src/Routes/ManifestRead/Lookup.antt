-- ===== src/Routes/ManifestRead/Lookup.antt =====
-- src/routes/invoke.rs: the two ways in which the handlers look an action up agree.
use Prim.Native.String.{String}
use jecp_server.Prelude.{
  ◌≡◌, refl, inl, inr, Bool, true, false, Option, none, some, List, [], ◌∷◌, map, Text, all, any,
  arith, Bool-cases,
}
use jecp_server.Routes.InvokeX402.{
  ManifestAction, is_str, find_action, action_accepts_x402, lists_x402,
}
use jecp_server.Routes.ManifestRead.{
  Action, Manifest, number, written, other_kind, price_of, or_later, first_price,
  extract_action_price, first_tier, extract_action_trust_tier, find, lowercased,
  extract_payment_methods, methods_of, texts, lists,
}

-- Every action has an id that is text.
abbrev pub has_id : {F : Type 0} → Action F → Bool
has_id a = elim a.declared.id [ none ↦ false | some name ↦ true ]

abbrev pub tier_of : {F : Type 0} → Option (Action F) → Option Text
tier_of none = none
tier_of (some a) = lowercased a.trust_tier_required

first_tier-find :
    {F : Type 0} (action_id : String) (actions : List (Action F))
    → all has_id actions ≡ true
    → first_tier action_id actions ≡ tier_of (find action_id actions)
unfolding first_tier find is_str
first_tier-find action_id [] h = refl
first_tier-find action_id (a ∷ actions) h = ground (arith, first_tier-find action_id actions)

-- The base price is a number or a text, or missing.
abbrev pub is_priced : {F : Type 0} → Action F → Bool
is_priced a = elim a.pricing_base [
  | none ↦ true
  | some b ↦ elim b [ number n ↦ true | written s ↦ true | other_kind ↦ false ]
]

module _ {F : Type 0} (parse_f64 : Text → Option F) where
  abbrev pub price_found : Option (Action F) → Option F
  price_found none = none
  price_found (some a) = or_later parse_f64 none (price_of parse_f64 a.pricing_base)

  first_price-find :
      (action_id : String) (actions : List (Action F))
      → all has_id actions ≡ true
      → all is_priced actions ≡ true
      → first_price parse_f64 action_id actions ≡ price_found (find action_id actions)
  unfolding first_price find is_str price_of or_later
  first_price-find action_id [] h hp = refl
  first_price-find action_id (a ∷ actions) h hp = ground (arith, first_price-find action_id actions)

  -- In a manifest whose actions all have an id, and a price that is a number or a text or missing, the price
  -- and the trust tier of an action are both those of the first action that has the id.
  pub extract_action-find :
      (actions : List (Action F)) (action_id : String)
      → all has_id actions ≡ true
      → all is_priced actions ≡ true
      → (extract_action_price parse_f64 (some actions) action_id
          ≡ price_found (find action_id actions))
        × (extract_action_trust_tier (some actions) action_id ≡ tier_of (find action_id actions))
  unfolding extract_action_price extract_action_trust_tier
  extract_action-find actions action_id h hp =
      (first_price-find action_id actions h hp, first_tier-find action_id actions h)

-- The actions as the x402 branch reads them.
abbrev pub declared_actions : {F : Type 0} → Manifest F → Option (List ManifestAction)
declared_actions none = none
declared_actions (some actions) = some (map (λ a. a.declared) actions)

lists-texts : (ms : List (Option String)) → lists "x402" (texts ms) ≡ any (is_str "x402") ms
unfolding lists texts is_str
lists-texts [] = refl
lists-texts (none ∷ ms) = lists-texts ms
lists-texts (some s ∷ ms) = ground (arith, lists-texts ms)

methods_x402 :
    {F : Type 0} (a : Action F) → lists "x402" (methods_of (some a)) ≡ lists_x402 (some a.declared)
unfolding methods_of lists_x402 lists
methods_x402 a =
    elim a.declared.payment_methods
      as (λ ms.
        lists "x402" (elim ms [ none ↦ [] | some vs ↦ texts vs ])
        ≡ elim ms [ none ↦ false | some vs ↦ any (is_str "x402") vs ]) [
          | none ↦ refl
          | some vs ↦ lists-texts vs
        ]

methods_of-find :
    {F : Type 0} (action_id : String) (actions : List (Action F))
    → lists "x402" (methods_of (find action_id actions))
      ≡ lists_x402 (find_action action_id (map (λ a. a.declared) actions))
unfolding find find_action methods_of lists_x402 lists
methods_of-find action_id [] = refl
methods_of-find action_id (a ∷ actions) = elim (Bool-cases (is_str action_id a.declared.id)) [
  | inl e ↦ rw e (methods_x402 a)
  | inr e ↦ rw e (methods_of-find action_id actions)
]

-- The 402 and the x402 branch agree on the actions that can be paid by x402.
pub extract_payment_methods-action_accepts_x402 :
    {F : Type 0} (manifest : Manifest F) (action_id : String)
    → lists "x402" (extract_payment_methods manifest action_id)
      ≡ action_accepts_x402 (declared_actions manifest) action_id
unfolding extract_payment_methods action_accepts_x402 lists
extract_payment_methods-action_accepts_x402 none action_id = refl
extract_payment_methods-action_accepts_x402 (some actions) action_id =
    methods_of-find action_id actions
