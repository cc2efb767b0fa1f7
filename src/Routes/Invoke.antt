-- ===== src/Routes/Invoke.antt =====
-- src/routes/invoke.rs, invoke_capability_json: the whole of POST /v1/invoke, with its order of effects.
-- The handler passes a state on, of the rate limiter, the replay cache, the settlements and a log of
-- what it did to others. The replay cache is what the trait `ReplayCache` promises; the x402 branch and the
-- guard of URLs are arguments, and their models are Routes/InvokeX402 and Protocol/UrlGuard. What the
-- database and the provider answer is given. Responses keep the billing and the provider's body.
pub mod Frame
pub mod Guarded
pub mod Outcomes
pub mod Effects
mod Tests
use Prim.Native.String.{String}
use jecp_server.Prelude.{
  ℕ, ◌+◌, ◌*◌, Bool, true, false, ◌&&◌, Option, none, some, List, [], ◌∷◌, ◌++◌, Text, leb, ltb,
  Result, ok, err, if◌then◌else◌,
}
use jecp_server.Auth.Agent.{AgentProfile, KeyRow}
use jecp_server.Auth.Provenance.{ProvenanceSubcause, nonce_replay, verify_provenance}
use jecp_server.Auth.ReplayCache.{Replay, first, replay}
use jecp_server.Middleware.RateLimit.{Windows, RateLimitDecision, check}
use jecp_server.Protocol.UrlGuard.{ValidatedUrl, UrlGuardError}
use jecp_server.Routes.InvokeChecks.{
  Mandate, InvokeRequest, Headers, Answer, refused, provenance_refused, rate_limited, x402_refused,
  ResolvedCapability, CachedResponse, check_request, check_agent, check_cache, check_terms,
  check_balance,
}
use jecp_server.Routes.InvokeX402.{
  X402Billing, X402Outcome, settled, fallthrough_to_wallet, no_x_payment, error,
}
use jecp_server.Services.Settlements.{Table}

-- What is done to others: a request to the provider, a charge of the wallet, a response kept for retries.
pub data Effect (F : Type 0) : Type 0 where
  forwarded stored : Effect F
  charged : F → Effect F

pub record World (F C : Type 0) : Type 0 where
  pub windows : Windows
  pub replays : C
  pub settlements : Table
  pub log : List (Effect F)

pub record InvokeChargeResult (F : Type 0) : Type 0 where
  pub balance_after : F
  pub transaction_id : ℕ

pub record ProviderResponse : Type 0 where
  pub status : ℕ
  pub body : Text

pub data BillingSummary (F : Type 0) : Type 0 where
  not_charged : F → BillingSummary F
  by_wallet : F → InvokeChargeResult F → BillingSummary F
  by_x402 : X402Billing → BillingSummary F

pub record InvokeResponse (F : Type 0) : Type 0 where
  pub result : Text
  pub billing : BillingSummary F

-- The libraries and the parts of `AppState` that the handler calls.
pub record AppState (F C : Type 0) : Type 0 where
  pub lt : F → F → Bool
  pub parse_f64 : Text → Option F
  pub bcrypt_verify : Text → Text → Bool
  pub hmac_hex : Text → Text → Text
  pub compute_provenance_hash : AgentProfile → Text
  pub agent_id_text : String → Text
  pub check_and_insert : C → String → Text → Replay × C
  pub dispatch_x402 : F → Table → X402Outcome × Table
  pub validate_outbound_url : Text → Result UrlGuardError ValidatedUrl
  pub default_rpm : ℕ

-- What is read outside in the course of one request.
pub record Readings (F : Type 0) : Type 0 where
  pub body : Option (InvokeRequest F)
  pub headers : Headers
  pub has_pool : Bool
  pub now : ℕ
  pub instant : ℕ
  pub row : Result (Unit {0}) (Option KeyRow)
  pub cached : Result (Unit {0}) (Option CachedResponse)
  pub resolution : Result (Unit {0}) (Option (ResolvedCapability F))
  pub schema : Result Answer (Unit {0})
  pub balance : Result (Unit {0}) F
  pub signed : Bool
  pub client_built : Bool
  pub provider : Result (Unit {0}) ProviderResponse
  pub charge : Result (Unit {0}) (Option (InvokeChargeResult F))

-- A part of the handler: it answers early, or goes on with a value, in the state that it leaves.
abbrev pub Handler : Type 0 → Type 0 → Type 0 → Type 0
Handler F C A = World F C → Result Answer A × World F C

unfoldable pub fresh : Replay → Result Answer (Unit {0})
fresh first = ok tt
fresh replay = err (provenance_refused nonce_replay)

-- No x402 billing, where a check lets the wallet's payment through.
unfoldable pub unpaid : Result Answer (Unit {0}) → Result Answer (Option X402Billing)
unpaid (ok u) = ok none
unpaid (err answer) = err answer

module _ {F C : Type 0} where
  abbrev pub go_on :
      {A B : Type 0}
      → Result Answer A × World F C
      → (A → Handler F C B)
      → Result Answer B × World F C
  go_on (err answer, w) next = (err answer, w)
  go_on (ok a, w) next = next a w

  infixl 5 ◌>>=◌
  abbrev pub ◌>>=◌ : {A B : Type 0} → Handler F C A → (A → Handler F C B) → Handler F C B
  m >>= next = λ w. go_on (m w) next

  infixl 5 ◌>>◌
  abbrev pub ◌>>◌ : {B : Type 0} → Handler F C (Unit {0}) → Handler F C B → Handler F C B
  m >> rest = m >>= λ _. rest

  abbrev pub lift : {A : Type 0} → Result Answer A → Handler F C A
  lift r = λ w. (r, w)

  unfoldable pub note : Effect F → Handler F C (Unit {0})
  note e = λ w. (ok tt, record w { log = w.log ++ e ∷ [] })

  module _ (state : AppState F C) (r : Readings F) where
    unfoldable pub register : String → Text → Handler F C (Unit {0})
    unfolding fresh
    register agent_id nonce = λ w.
        let (seen, replays) = state.check_and_insert w.replays agent_id nonce in
        (fresh seen, record w { replays = replays })

    unfoldable pub check_claim :
        String → Result ProvenanceSubcause (Option (ℕ × Text)) → Handler F C (Unit {0})
    unfolding register
    check_claim agent_id (err e) = lift (err (provenance_refused e))
    check_claim agent_id (ok none) = lift (ok tt)
    check_claim agent_id (ok (some (timestamp, nonce))) = register agent_id nonce

    -- The mandate's provenance hash, against the key that the mandate itself carries.
    unfoldable pub check_hash :
        String → AgentProfile → Mandate F → Option Text → Handler F C (Unit {0})
    unfolding check_claim
    check_hash agent_id agent m none = lift (ok tt)
    check_hash agent_id agent m (some claimed) = check_claim agent_id (
        verify_provenance state.hmac_hex r.now agent.api_key (state.compute_provenance_hash agent)
          (state.agent_id_text agent_id) m.api_key claimed)

    unfoldable pub check_provenance :
        String → AgentProfile → Option (Mandate F) → Handler F C (Unit {0})
    unfolding check_hash
    check_provenance agent_id agent none = lift (ok tt)
    check_provenance agent_id agent (some m) = check_hash agent_id agent m m.provenance_hash

    unfoldable pub within_rate : Result RateLimitDecision ℕ → Result Answer (Unit {0})
    within_rate (ok left) = ok tt
    within_rate (err decision) = err (rate_limited decision.retry_after_secs)

    unfoldable pub check_rate : String → Handler F C (Unit {0})
    unfolding within_rate
    check_rate agent_id = λ w.
        let (decision, windows) = check state.default_rpm w.windows agent_id (some 60) r.instant in
        (within_rate decision, record w { windows = windows })

    -- The x402 settlement where there is one, and otherwise a balance that covers the price.
    unfoldable pub paid : F → X402Outcome → Result Answer (Option X402Billing)
    unfolding unpaid
    paid price (settled b) = ok (some b)
    paid price (error e) = err (x402_refused e)
    paid price fallthrough_to_wallet =
        unpaid (check_balance state.lt state.parse_f64 price r.balance)
    paid price no_x_payment = unpaid (check_balance state.lt state.parse_f64 price r.balance)

    unfoldable pub pay : F → Handler F C (Option X402Billing)
    unfolding paid
    pay price = λ w.
        let (outcome, settlements) = state.dispatch_x402 price w.settlements in
        (paid price outcome, record w { settlements = settlements })

    unfoldable pub reachable : Result UrlGuardError ValidatedUrl → Result Answer (Unit {0})
    reachable (err e) = err (refused 422 "URL_BLOCKED_SSRF")
    reachable (ok v) = if r.client_built then ok tt else err (refused 500 "HTTP_CLIENT")

    -- From the signature to the client for the pinned address.
    unfoldable pub check_endpoint : ResolvedCapability F → Result Answer (Unit {0})
    unfolding reachable
    check_endpoint resolved =
        if r.signed
        then reachable (state.validate_outbound_url resolved.endpoint_url)
        else err (refused 500 "HMAC_ERROR")

    -- `is_success`.
    unfoldable pub answered : Result (Unit {0}) ProviderResponse → Result Answer Text
    answered (err e) = err (refused 502 "PROVIDER_UNREACHABLE")
    answered (ok p) =
        if leb 200 p.status && ltb p.status 300
        then ok p.body
        else err (refused 502 "PROVIDER_ERROR")

    unfoldable pub forward : ResolvedCapability F → Handler F C Text
    unfolding check_endpoint note answered
    forward resolved =
        lift (check_endpoint resolved) >> (note forwarded >> lift (answered r.provider))

    -- A charge that fails, or that the balance no longer covers, leaves the call uncharged.
    unfoldable pub bill_wallet :
        F → Result (Unit {0}) (Option (InvokeChargeResult F)) → Handler F C (BillingSummary F)
    unfolding note
    bill_wallet price (err e) = lift (ok (not_charged price))
    bill_wallet price (ok none) = lift (ok (not_charged price))
    bill_wallet price (ok (some charge)) =
        note (charged price) >> lift (ok (by_wallet price charge))

    unfoldable pub bill : F → Option X402Billing → Handler F C (BillingSummary F)
    unfolding bill_wallet
    bill price (some b) = lift (ok (by_x402 b))
    bill price none = bill_wallet price r.charge

    -- The call after its pre-flight, from the provider's answer on and as a whole.
    unfoldable pub keep : Text → BillingSummary F → Handler F C (InvokeResponse F)
    unfolding note
    keep result summary = note stored >> lift (ok (record { result = result; billing = summary }))

    unfoldable pub finish : F → Option X402Billing → Text → Handler F C (InvokeResponse F)
    unfolding bill keep
    finish price billing result = bill price billing >>= keep result

    unfoldable pub serve : ResolvedCapability F × F → Handler F C (InvokeResponse F)
    unfolding pay forward finish
    serve (resolved, price) = do
      billing ← pay price
      result ← forward resolved
      finish price billing result

    unfoldable pub admit :
        InvokeRequest F → String × AgentProfile → Handler F C (ResolvedCapability F × F)
    unfolding check_provenance check_rate
    admit req (agent_id, agent) = do
      check_provenance agent_id agent req.mandate
      check_rate agent_id
      lift (check_cache r.cached)
      lift (check_terms state.lt state.parse_f64 r.now r.resolution r.schema req agent)

    -- The call up to the dispatch of its payment.
    unfoldable pub preflight : Handler F C (ResolvedCapability F × F)
    unfolding admit
    preflight = do
      req ← lift (check_request r.body)
      caller ← lift (check_agent state.bcrypt_verify r.headers r.has_pool r.row r.now)
      admit req caller

    unfoldable pub invoke_capability_json : Handler F C (InvokeResponse F)
    unfolding preflight serve
    invoke_capability_json = do terms ← preflight; serve terms
