-- ===== src/Routes/InvokeChecks.antt =====
-- src/routes/invoke.rs: the checks of POST /v1/invoke that change no state, in both of its forms.
-- The body is what `serde_json` makes of it. Floats, their order and parser, `bcrypt` and the schema
-- validator are parameters; what the database answers is an argument. Of an answer the model has the
-- status and the code, and what a client needs of its details. Times are seconds.
pub mod Accepted
pub mod Agreement
mod Tests
use Prim.Native.String.{String}
use jecp_server.Prelude.{
  ℕ, ◌%◌, ◌^◌, Bool, true, false, ◌&&◌, not, Option, none, some, List, Text, codes, text_eq, any,
  ltb, leb, ◌==◌, Result, ok, err, guard, ok_or, ◌>>=◌, ◌>>◌, if◌then◌else◌,
}
use jecp_server.Auth.Agent.{AgentProfile, KeyRow, TrustTier, trust_tier, rank, authenticate_agent}
use jecp_server.Auth.Provenance.{ProvenanceSubcause}
use jecp_server.Protocol.X402Types.{X402Error}
use jecp_server.Routes.ManifestRead.{
  Manifest, extract_action_price, extract_action_trust_tier, extract_action_streaming,
  parse_trust_tier,
}

pub record Mandate (F : Type 0) : Type 0 where
  pub api_key : Text
  pub budget_usdc : Option F
  pub expires_at : Option ℕ
  pub provenance_hash : Option Text

pub record InvokeRequest (F : Type 0) : Type 0 where
  pub jecp : Text
  pub id : Text
  pub capability : Text
  pub action : String
  pub mandate : Option (Mandate F)

pub record Headers : Type 0 where
  pub x_agent_id : Option String
  pub x_api_key : Option Text

-- An answer that is not the result of the call.
pub data Answer : Type 0 where
  refused : ℕ → String → Answer
  payment_required : String → Answer
  provenance_refused : ProvenanceSubcause → Answer
  rate_limited : ℕ → Answer
  x402_refused : X402Error → Answer
  replayed : ℕ → Text → Answer

pub record ResolvedCapability (F : Type 0) : Type 0 where
  pub endpoint_url : Text
  pub hmac_secret : Text
  pub parsed_json : Manifest F
  pub sunset_at : Option ℕ

-- The status is an i32, as a word of 32 bits.
pub record CachedResponse : Type 0 where
  pub response : Option Text
  pub http_status : ℕ
  pub conflict : Bool

abbrev pub slash : ℕ
slash = 47

unfoldable pub check_request :
    {F : Type 0} → Option (InvokeRequest F) → Result Answer (InvokeRequest F)
check_request body = do
  req ← ok_or body (refused 400 "PARSE_ERROR")
  guard (text_eq req.jecp (codes "1.0")) (refused 400 "UNSUPPORTED_PROTOCOL")
  guard (not (text_eq req.id (codes ""))) (refused 400 "MISSING_ID")
  guard (any (λ (c : ℕ). c == slash) req.capability) (refused 400 "INVALID_CAPABILITY")
  ok req

-- `map_err`, to one answer.
unfoldable pub or_refuse : {E A : Type 0} → Answer → Result E A → Result Answer A
or_refuse answer (ok a) = ok a
or_refuse answer (err e) = err answer

unfoldable pub check_agent :
    (Text → Text → Bool)
    → Headers
    → Bool
    → Result (Unit {0}) (Option KeyRow)
    → ℕ
    → Result Answer (String × AgentProfile)
unfolding or_refuse
check_agent bcrypt_verify headers has_pool row now = do
  agent_id ← ok_or headers.x_agent_id (refused 401 "AUTH_REQUIRED")
  api_key ← ok_or headers.x_api_key (refused 401 "AUTH_REQUIRED")
  guard has_pool (refused 503 "DB_UNAVAILABLE")
  agent ← or_refuse (refused 401 "INVALID_AGENT") (authenticate_agent bcrypt_verify row now api_key)
  ok (agent_id, agent)

-- `from_u16(status as u16).unwrap_or(OK)`.
unfoldable pub cached_status : ℕ → ℕ
cached_status w = if leb 100 (w % 2 ^ 16) && leb (w % 2 ^ 16) 999 then w % 2 ^ 16 else 200

unfoldable pub check_cache : Result (Unit {0}) (Option CachedResponse) → Result Answer (Unit {0})
unfolding cached_status
check_cache (err e) = ok tt
check_cache (ok none) = ok tt
check_cache (ok (some c)) =
    if c.conflict then err (refused 409 "DUPLICATE_REQUEST") else elim c.response [
      | none ↦ ok tt
      | some body ↦ err (replayed (cached_status c.http_status) body)
    ]

unfoldable pub check_resolved :
    {F : Type 0}
    → Result (Unit {0}) (Option (ResolvedCapability F))
    → Result Answer (ResolvedCapability F)
check_resolved (err e) = err (refused 500 "DB_ERROR")
check_resolved (ok none) = err (refused 404 "CAPABILITY_NOT_FOUND")
check_resolved (ok (some r)) = ok r

-- The capability has no sunset, or one that is still to come.
unfoldable pub check_sunset : ℕ → Option ℕ → Result Answer (Unit {0})
check_sunset now none = ok tt
check_sunset now (some sunset_at) =
    guard (not (leb sunset_at now)) (refused 410 "CAPABILITY_DEPRECATED")

unfoldable pub tier_text : Option Text → Text
tier_text none = codes "bronze"
tier_text (some t) = t

module _ {F : Type 0} (lt : F → F → Bool) (parse_f64 : Text → Option F) where
  unfoldable pub check_price : Manifest F → String → Result Answer F
  check_price manifest action =
      ok_or (extract_action_price parse_f64 manifest action) (refused 422 "ACTION_NOT_FOUND")

  unfoldable pub check_trust : Manifest F → String → AgentProfile → Result Answer (Unit {0})
  unfolding tier_text
  check_trust manifest action agent = do
    required ←
        ok_or (parse_trust_tier (tier_text (extract_action_trust_tier manifest action)))
          (refused 422 "INVALID_TRUST_TIER")
    guard (leb (rank required) (rank (trust_tier agent))) (refused 403 "INSUFFICIENT_TRUST")

  unfoldable pub check_expiry : ℕ → Option ℕ → Result Answer (Unit {0})
  check_expiry now none = ok tt
  check_expiry now (some expires) = guard (not (ltb expires now)) (refused 403 "MANDATE_EXPIRED")

  unfoldable pub check_budget : F → Option F → Result Answer (Unit {0})
  check_budget price none = ok tt
  check_budget price (some budget) =
      guard (not (lt budget price)) (payment_required "INSUFFICIENT_BUDGET")

  unfoldable pub check_mandate : ℕ → F → Option (Mandate F) → Result Answer (Unit {0})
  unfolding check_expiry check_budget
  check_mandate now price none = ok tt
  check_mandate now price (some m) =
      check_expiry now m.expires_at >> check_budget price m.budget_usdc

  unfoldable pub check_balance : F → Result (Unit {0}) F → Result Answer (Unit {0})
  check_balance price (err e) = err (refused 500 "DB_ERROR")
  check_balance price (ok balance) =
      guard (not (lt balance price)) (payment_required "INSUFFICIENT_BALANCE")

  -- From the capability to the mandate, on the JSON path. `schema` is the validator's answer.
  unfoldable pub check_terms :
      ℕ
      → Result (Unit {0}) (Option (ResolvedCapability F))
      → Result Answer (Unit {0})
      → InvokeRequest F
      → AgentProfile
      → Result Answer (ResolvedCapability F × F)
  unfolding check_resolved check_sunset check_price check_trust check_mandate
  check_terms now resolution schema req agent = do
    resolved ← check_resolved resolution
    check_sunset now resolved.sunset_at
    schema
    price ← check_price resolved.parsed_json req.action
    check_trust resolved.parsed_json req.action agent
    check_mandate now price req.mandate
    ok (resolved, price)

  -- The same on the streaming path, which has no test of the sunset or of the input.
  unfoldable pub check_stream_terms :
      ℕ
      → Result (Unit {0}) (Option (ResolvedCapability F))
      → Result (Unit {0}) F
      → InvokeRequest F
      → AgentProfile
      → Result Answer (ResolvedCapability F × F)
  unfolding check_resolved check_price check_trust check_mandate check_balance
  check_stream_terms now resolution balance req agent = do
    resolved ← check_resolved resolution
    guard (extract_action_streaming resolved.parsed_json req.action) (refused 406 "NOT_STREAMABLE")
    price ← check_price resolved.parsed_json req.action
    check_trust resolved.parsed_json req.action agent
    check_mandate now price req.mandate
    check_balance price balance
    ok (resolved, price)
