-- ===== src/Routes/InvokeChecks/Accepted.antt =====
-- src/routes/invoke.rs: what holds of a call that the checks let through.
use Prim.Native.String.{String}
use jecp_server.Prelude.{
  ℕ, ◌≤◌, ◌<◌, ◌≡◌, refl, ap, subst, Bool, true, false, not, Option, none, some, Text, any, ltb,
  leb, ◌==◌, codes, text_eq, Result, ok, err, guard, ok_or, >>=-eq-ok, ok-injective, guard-eq-ok,
  ok_or-eq-ok, arith,
}
use jecp_server.Auth.Agent.{AgentProfile, KeyRow, TrustTier, trust_tier, rank, authenticate_agent}
use jecp_server.Routes.ManifestRead.{
  Manifest, extract_action_price, extract_action_trust_tier, extract_action_streaming,
  parse_trust_tier,
}
use jecp_server.Routes.InvokeChecks.{
  Answer, refused, Mandate, InvokeRequest, Headers, ResolvedCapability, or_refuse, check_request,
  check_agent, check_resolved, check_sunset, check_price, check_trust, check_expiry, check_budget,
  check_mandate, check_balance, check_terms, check_stream_terms, tier_text, slash,
}

not-true : {b : Bool} → not b ≡ true → b ≡ false
not-true h = ground arith

pub or_refuse-ok :
    {E A : Type 0} (answer : Answer) (r : Result E A) (a : A) → or_refuse answer r ≡ ok a → r ≡ ok a
unfolding or_refuse
or_refuse-ok answer (ok b) a h = cc
or_refuse-ok answer (err e) a h = cc

-- The request is well formed.
pub record IsWellFormed {F : Type 0} (req : InvokeRequest F) : Type 0 where
  pub version : text_eq req.jecp (codes "1.0") ≡ true
  pub named : text_eq req.id (codes "") ≡ false
  pub qualified : any (λ (c : ℕ). c == slash) req.capability ≡ true

pub check_request-ok :
    {F : Type 0} (body : Option (InvokeRequest F)) (req : InvokeRequest F)
    → check_request body ≡ ok req
    → (body ≡ some req) × IsWellFormed req
unfolding check_request
check_request-ok {F} none req h = absurd (cc)
check_request-ok {F} (some r) req h =
    let (u, hv, h1) =
      >>=-eq-ok (guard (text_eq r.jecp (codes "1.0")) (refused 400 "UNSUPPORTED_PROTOCOL")) _ h in
    let (u', hn, h2) =
      >>=-eq-ok (guard (not (text_eq r.id (codes ""))) (refused 400 "MISSING_ID")) _ h1 in
    let (u'', hq, h3) =
      >>=-eq-ok
        (guard (any (λ (c : ℕ). c == slash) r.capability) (refused 400 "INVALID_CAPABILITY")) _
        h2 in
    subst (λ (q : InvokeRequest F). (some r ≡ some q) × IsWellFormed q) (ok-injective h3)
      (
        refl,
        record {
          version = guard-eq-ok _ _ hv;
          named = not-true (guard-eq-ok _ _ hn);
          qualified = guard-eq-ok _ _ hq;
        },
      )

-- The caller has given both headers, and the key is the agent's.
pub record IsAuthentic (bcrypt_verify : Text → Text → Bool) (headers : Headers)
    (row : Result (Unit {0}) (Option KeyRow)) (now : ℕ) (agent_id : String) (agent : AgentProfile)
    : Type 0 where
  pub identified : headers.x_agent_id ≡ some agent_id
  pub key : Text
  pub key_given : headers.x_api_key ≡ some key
  pub authenticated : authenticate_agent bcrypt_verify row now key ≡ ok agent

pub check_agent-ok :
    (bcrypt_verify : Text → Text → Bool) (headers : Headers) (has_pool : Bool)
    (row : Result (Unit {0}) (Option KeyRow)) (now : ℕ) (agent_id : String) (agent : AgentProfile)
    → check_agent bcrypt_verify headers has_pool row now ≡ ok (agent_id, agent)
    → IsAuthentic bcrypt_verify headers row now agent_id agent
unfolding check_agent
check_agent-ok bcrypt_verify headers has_pool row now agent_id agent h =
    let (i, hi, h1) = >>=-eq-ok (ok_or headers.x_agent_id (refused 401 "AUTH_REQUIRED")) _ h in
    let (k, hk, h2) = >>=-eq-ok (ok_or headers.x_api_key (refused 401 "AUTH_REQUIRED")) _ h1 in
    let (u, hp, h3) = >>=-eq-ok (guard has_pool (refused 503 "DB_UNAVAILABLE")) _ h2 in
    let (a, ha, h4) =
      >>=-eq-ok
        (or_refuse (refused 401 "INVALID_AGENT") (authenticate_agent bcrypt_verify row now k)) _
        h3 in
    subst (λ (p : String × AgentProfile). IsAuthentic bcrypt_verify headers row now p.0 p.1)
      (ok-injective h4)
      (record {
        identified = ok_or-eq-ok headers.x_agent_id _ hi;
        key = k;
        key_given = ok_or-eq-ok headers.x_api_key _ hk;
        authenticated =
            or_refuse-ok (refused 401 "INVALID_AGENT") (authenticate_agent bcrypt_verify row now k)
              a ha;
      })

-- The agent's tier is the one that the action requires, or above it.
pub record IsTrusted {F : Type 0} (manifest : Manifest F) (action : String) (agent : AgentProfile)
    : Type 0 where
  pub required : TrustTier
  pub declared :
      parse_trust_tier (tier_text (extract_action_trust_tier manifest action)) ≡ some required
  pub reached : rank required ≤ rank (trust_tier agent)

module _ {F : Type 0} (lt : F → F → Bool) (parse_f64 : Text → Option F) where
  -- A mandate, where there is one, has not expired and has a budget that is not below the price.
  abbrev pub IsInTime : ℕ → Option ℕ → Type 0
  IsInTime now none = Unit
  IsInTime now (some expires) = now ≤ expires

  abbrev pub IsInBudget : F → Option F → Type 0
  IsInBudget price none = Unit
  IsInBudget price (some budget) = lt budget price ≡ false

  abbrev pub IsMandated : ℕ → F → Option (Mandate F) → Type 0
  IsMandated now price none = Unit
  IsMandated now price (some m) = IsInTime now m.expires_at × IsInBudget price m.budget_usdc

  pub check_trust-ok :
      (manifest : Manifest F) (action : String) (agent : AgentProfile)
      → check_trust lt parse_f64 manifest action agent ≡ ok tt
      → IsTrusted manifest action agent
  unfolding check_trust
  check_trust-ok manifest action agent h =
      let (required, hr, h1) =
        >>=-eq-ok
          (ok_or (parse_trust_tier (tier_text (extract_action_trust_tier manifest action)))
            (refused 422 "INVALID_TRUST_TIER"))
          _ h in
      record {
        required = required;
        declared = ok_or-eq-ok _ _ hr;
        reached = ground (arith, guard-eq-ok (leb (rank required) (rank (trust_tier agent))) _ h1);
      }

  check_expiry-ok :
      (now : ℕ) (e : Option ℕ) → check_expiry lt parse_f64 now e ≡ ok tt → IsInTime now e
  unfolding check_expiry
  check_expiry-ok now none h = tt
  check_expiry-ok now (some expires) h =
      ground (arith, guard-eq-ok (not (ltb expires now)) (refused 403 "MANDATE_EXPIRED") h)

  check_budget-ok :
      (price : F) (b : Option F) → check_budget lt parse_f64 price b ≡ ok tt → IsInBudget price b
  unfolding check_budget
  check_budget-ok price none h = tt
  check_budget-ok price (some budget) h = not-true (guard-eq-ok _ _ h)

  pub check_mandate-ok :
      (now : ℕ) (price : F) (m : Option (Mandate F))
      → check_mandate lt parse_f64 now price m ≡ ok tt
      → IsMandated now price m
  unfolding check_mandate
  check_mandate-ok now price none h = tt
  check_mandate-ok now price (some m) h =
      let (u, he, h1) = >>=-eq-ok (check_expiry lt parse_f64 now m.expires_at) _ h in
      (check_expiry-ok now m.expires_at he, check_budget-ok price m.budget_usdc h1)

  pub check_balance-ok :
      (price : F) (balance : Result (Unit {0}) F)
      → check_balance lt parse_f64 price balance ≡ ok tt
      → (b : F) × (balance ≡ ok b) × (lt b price ≡ false)
  unfolding check_balance
  check_balance-ok price (err e) h = absurd (cc)
  check_balance-ok price (ok b) h = (b, refl, not-true (guard-eq-ok _ _ h))

  check_resolved-ok :
      (resolution : Result (Unit {0}) (Option (ResolvedCapability F))) (r : ResolvedCapability F)
      → check_resolved resolution ≡ ok r
      → resolution ≡ ok (some r)
  unfolding check_resolved
  check_resolved-ok (err e) r h = absurd (cc)
  check_resolved-ok (ok none) r h = absurd (cc)
  check_resolved-ok (ok (some s)) r h =
      ap (λ (x : ResolvedCapability F). ok (some x)) (ok-injective h)

  -- The capability is not past its sunset.
  abbrev pub IsServed : ℕ → Option ℕ → Type 0
  IsServed now none = Unit
  IsServed now (some sunset_at) = now < sunset_at

  check_sunset-ok : (now : ℕ) (s : Option ℕ) → check_sunset now s ≡ ok tt → IsServed now s
  unfolding check_sunset
  check_sunset-ok now none h = tt
  check_sunset-ok now (some sunset_at) h =
      ground (arith, guard-eq-ok (not (leb sunset_at now)) (refused 410 "CAPABILITY_DEPRECATED") h)

  -- The price that a call of the action has, and that its agent may make it.
  pub record IsAllowed (now : ℕ) (req : InvokeRequest F) (agent : AgentProfile)
      (resolved : ResolvedCapability F) (price : F) : Type 0 where
    pub priced : extract_action_price parse_f64 resolved.parsed_json req.action ≡ some price
    pub trusted : IsTrusted resolved.parsed_json req.action agent
    pub mandated : IsMandated now price req.mandate

  pub check_terms-ok :
      (now : ℕ) (resolution : Result (Unit {0}) (Option (ResolvedCapability F)))
      (schema : Result Answer (Unit {0})) (req : InvokeRequest F) (agent : AgentProfile)
      (resolved : ResolvedCapability F) (price : F)
      → check_terms lt parse_f64 now resolution schema req agent ≡ ok (resolved, price)
      → (resolution ≡ ok (some resolved))
        × IsServed now resolved.sunset_at
        × (schema ≡ ok tt)
        × IsAllowed now req agent resolved price
  unfolding check_terms check_price
  check_terms-ok now resolution schema req agent resolved price h =
      let (r, hr, h1) = >>=-eq-ok (check_resolved resolution) _ h in
      let (u, hs, h2) = >>=-eq-ok (check_sunset now r.sunset_at) _ h1 in
      let (v, hv, h3) = >>=-eq-ok schema _ h2 in
      let (p, hp, h4) = >>=-eq-ok (check_price lt parse_f64 r.parsed_json req.action) _ h3 in
      let (t, ht, h5) = >>=-eq-ok (check_trust lt parse_f64 r.parsed_json req.action agent) _ h4 in
      let (m, hm, h6) = >>=-eq-ok (check_mandate lt parse_f64 now p req.mandate) _ h5 in
      subst
        (λ (x : ResolvedCapability F × F).
          (resolution ≡ ok (some x.0))
          × IsServed now x.0.sunset_at
          × (schema ≡ ok tt)
          × IsAllowed now req agent x.0 x.1)
        (ok-injective h6)
        (
          check_resolved-ok resolution r hr,
          check_sunset-ok now r.sunset_at hs,
          hv,
          record {
            priced = ok_or-eq-ok _ _ hp;
            trusted = check_trust-ok r.parsed_json req.action agent ht;
            mandated = check_mandate-ok now p req.mandate hm;
          },
        )

  -- A streaming call that is let through is for a published capability whose action streams; the agent
  -- has the tier and the mandate for the price of the action, and a balance that is not below it.
  pub check_stream_terms-ok :
      (now : ℕ) (resolution : Result (Unit {0}) (Option (ResolvedCapability F)))
      (balance : Result (Unit {0}) F) (req : InvokeRequest F) (agent : AgentProfile)
      (resolved : ResolvedCapability F) (price : F)
      → check_stream_terms lt parse_f64 now resolution balance req agent ≡ ok (resolved, price)
      → (resolution ≡ ok (some resolved))
        × (extract_action_streaming resolved.parsed_json req.action ≡ true)
        × IsAllowed now req agent resolved price
        × ((b : F) × (balance ≡ ok b) × (lt b price ≡ false))
  unfolding check_stream_terms check_price
  check_stream_terms-ok now resolution balance req agent resolved price h =
      let (r, hr, h1) = >>=-eq-ok (check_resolved resolution) _ h in
      let (u, hs, h2) =
        >>=-eq-ok
          (guard (extract_action_streaming r.parsed_json req.action) (refused 406 "NOT_STREAMABLE"))
          _ h1 in
      let (p, hp, h4) = >>=-eq-ok (check_price lt parse_f64 r.parsed_json req.action) _ h2 in
      let (t, ht, h5) = >>=-eq-ok (check_trust lt parse_f64 r.parsed_json req.action agent) _ h4 in
      let (m, hm, h6) = >>=-eq-ok (check_mandate lt parse_f64 now p req.mandate) _ h5 in
      let (c, hc, h7) = >>=-eq-ok (check_balance lt parse_f64 p balance) _ h6 in
      subst
        (λ (x : ResolvedCapability F × F).
          (resolution ≡ ok (some x.0))
          × (extract_action_streaming x.0.parsed_json req.action ≡ true)
          × IsAllowed now req agent x.0 x.1
          × ((b : F) × (balance ≡ ok b) × (lt b x.1 ≡ false)))
        (ok-injective h7)
        (
          check_resolved-ok resolution r hr,
          guard-eq-ok _ _ hs,
          record {
            priced = ok_or-eq-ok _ _ hp;
            trusted = check_trust-ok r.parsed_json req.action agent ht;
            mandated = check_mandate-ok now p req.mandate hm;
          },
          check_balance-ok p balance hc,
        )
