-- ===== src/Routes/Invoke/Guarded.antt =====
-- src/routes/invoke.rs: what has been checked when a request is passed on to its provider.
use Prim.Native.String.{String}
use jecp_server.Prelude.{
  ℕ, ◌≡◌, refl, sym, ap, ◌∙◌, subst, inl, inr, false, Option, none, some, Text, Result, ok, err,
  Result-cases, ok-injective,
}
use jecp_server.Auth.Agent.{AgentProfile}
use jecp_server.Auth.Provenance.{ProvenanceSubcause, verify_provenance}
use jecp_server.Auth.ReplayCache.{Replay, first, replay}
use jecp_server.Middleware.RateLimit.{Windows, check, RateLimitDecision}
use jecp_server.Routes.InvokeChecks.{
  Mandate, InvokeRequest, Answer, ResolvedCapability, check_request, check_agent, check_cache,
  check_terms, check_balance,
}
use jecp_server.Routes.InvokeChecks.Accepted.{
  IsWellFormed, IsAuthentic, IsServed, IsAllowed, check_request-ok, check_agent-ok, check_terms-ok,
  check_balance-ok,
}
use jecp_server.Routes.InvokeX402.{
  X402Billing, X402Outcome, settled, fallthrough_to_wallet, no_x_payment, error,
}
use jecp_server.Routes.Invoke.{
  World, AppState, Readings, fresh, register, check_claim, check_hash, check_provenance, check_rate,
  within_rate, unpaid, paid, admit, preflight,
}
use jecp_server.Services.Settlements.{Table}
use jecp_server.Routes.Invoke.Frame.{>>=-inverts, lift-inverts}

fresh-ok : (seen : Replay) → fresh seen ≡ ok tt → seen ≡ first
unfolding fresh
fresh-ok first h = refl
fresh-ok replay h = absurd (cc)

err_ne_ok : {E A : Type 0} {e : E} {a : A} → ◌≡◌ {A = Result E A} (err e) (ok a) → ⊥
err_ne_ok h = cc

module _ {F C : Type 0} (state : AppState F C) (r : Readings F) where
  -- The provenance of the mandate is right, and a nonce that it has was not seen before.
  abbrev pub IsClaimed : C → String → Result ProvenanceSubcause (Option (ℕ × Text)) → Type 0
  IsClaimed c agent_id (err e) = ⊥
  IsClaimed c agent_id (ok none) = Unit
  IsClaimed c agent_id (ok (some (timestamp, nonce))) =
      (state.check_and_insert c agent_id nonce).0 ≡ first

  abbrev pub claim_of :
      String → AgentProfile → Mandate F → Text → Result ProvenanceSubcause (Option (ℕ × Text))
  claim_of agent_id agent m claimed =
      verify_provenance state.hmac_hex r.now agent.api_key (state.compute_provenance_hash agent)
        (state.agent_id_text agent_id) m.api_key claimed

  abbrev pub IsHashed : C → String → AgentProfile → Mandate F → Option Text → Type 0
  IsHashed c agent_id agent m none = Unit
  IsHashed c agent_id agent m (some claimed) =
      IsClaimed c agent_id (claim_of agent_id agent m claimed)

  abbrev pub IsProven : C → String → AgentProfile → Option (Mandate F) → Type 0
  IsProven c agent_id agent none = Unit
  IsProven c agent_id agent (some m) = IsHashed c agent_id agent m m.provenance_hash

  check_claim-ok :
      (agent_id : String) (claim : Result ProvenanceSubcause (Option (ℕ × Text))) (w : World F C)
      → (check_claim state r agent_id claim w).0 ≡ ok tt
      → IsClaimed w.replays agent_id claim
  unfolding check_claim register
  check_claim-ok agent_id (err e) w h = absurd (cc)
  check_claim-ok agent_id (ok none) w h = tt
  check_claim-ok agent_id (ok (some (t, nonce))) w h =
      fresh-ok (state.check_and_insert w.replays agent_id nonce).0 h

  check_claim-windows :
      (agent_id : String) (claim : Result ProvenanceSubcause (Option (ℕ × Text))) (w : World F C)
      → (check_claim state r agent_id claim w).1.windows ≡ w.windows
  unfolding check_claim register
  check_claim-windows agent_id (err e) w = refl
  check_claim-windows agent_id (ok none) w = refl
  check_claim-windows agent_id (ok (some (t, nonce))) w = refl

  check_hash-ok :
      (agent_id : String) (agent : AgentProfile) (m : Mandate F) (hash : Option Text)
      (w : World F C)
      → (check_hash state r agent_id agent m hash w).0 ≡ ok tt
      → IsHashed w.replays agent_id agent m hash
  unfolding check_hash
  check_hash-ok agent_id agent m none w h = tt
  check_hash-ok agent_id agent m (some claimed) w h =
      check_claim-ok agent_id (claim_of agent_id agent m claimed) w h

  check_hash-windows :
      (agent_id : String) (agent : AgentProfile) (m : Mandate F) (hash : Option Text)
      (w : World F C)
      → (check_hash state r agent_id agent m hash w).1.windows ≡ w.windows
  unfolding check_hash
  check_hash-windows agent_id agent m none w = refl
  check_hash-windows agent_id agent m (some claimed) w =
      check_claim-windows agent_id (claim_of agent_id agent m claimed) w

  check_provenance-ok :
      (agent_id : String) (agent : AgentProfile) (m : Option (Mandate F)) (w : World F C)
      → (check_provenance state r agent_id agent m w).0 ≡ ok tt
      → IsProven w.replays agent_id agent m
  unfolding check_provenance
  check_provenance-ok agent_id agent none w h = tt
  check_provenance-ok agent_id agent (some m) w h =
      check_hash-ok agent_id agent m m.provenance_hash w h

  check_provenance-windows :
      (agent_id : String) (agent : AgentProfile) (m : Option (Mandate F)) (w : World F C)
      → (check_provenance state r agent_id agent m w).1.windows ≡ w.windows
  unfolding check_provenance
  check_provenance-windows agent_id agent none w = refl
  check_provenance-windows agent_id agent (some m) w =
      check_hash-windows agent_id agent m m.provenance_hash w

  within_rate-ok :
      (d : Result RateLimitDecision ℕ) → within_rate state r d ≡ ok tt → (left : ℕ) × (d ≡ ok left)
  unfolding within_rate
  within_rate-ok (ok left) h = (left, refl)
  within_rate-ok (err decision) h = absurd (cc)

  -- What the pre-flight has found, in the state in which the request came.
  pub record IsCleared (w : World F C) (terms : ResolvedCapability F × F) : Type 0 where
    pub request : InvokeRequest F
    pub agent_id : String
    pub agent : AgentProfile
    pub received : r.body ≡ some request
    pub well_formed : IsWellFormed request
    pub authentic : IsAuthentic state.bcrypt_verify r.headers r.row r.now agent_id agent
    pub proven : IsProven w.replays agent_id agent request.mandate
    pub in_rate :
        (left : ℕ) × ((check state.default_rpm w.windows agent_id (some 60) r.instant).0 ≡ ok left)
    pub uncached : check_cache r.cached ≡ ok tt
    pub published : r.resolution ≡ ok (some terms.0)
    pub served : IsServed state.lt state.parse_f64 r.now terms.0.sunset_at
    pub valid_input : r.schema ≡ ok tt
    pub allowed : IsAllowed state.lt state.parse_f64 r.now request agent terms.0 terms.1

  admit-ok :
      (req : InvokeRequest F) (agent_id : String) (agent : AgentProfile) (w v : World F C)
      (terms : ResolvedCapability F × F)
      → admit state r req (agent_id, agent) w ≡ (ok terms, v)
      → IsProven w.replays agent_id agent req.mandate
        × ((left : ℕ) × ((check state.default_rpm w.windows agent_id (some 60) r.instant).0
              ≡ ok left))
        × (check_cache r.cached ≡ ok tt)
        × (check_terms state.lt state.parse_f64 r.now r.resolution r.schema req agent ≡ ok terms)
  unfolding admit check_rate
  admit-ok req agent_id agent w v terms h =
      let m = check_provenance state r agent_id agent req.mandate in
      let (u, w1, h1, k1) = >>=-inverts m _ w h in
      let (u', w2, h2, k2) = >>=-inverts (check_rate state r agent_id) _ w1 k1 in
      let (u'', h3, k3) = lift-inverts (check_cache r.cached) _ w2 k2 in
      let same : w1.windows ≡ w.windows =
        sym (ap (λ (x : Result Answer (Unit {0}) × World F C). x.1.windows) h1)
        ∙ check_provenance-windows agent_id agent req.mandate w in
      let rated : within_rate state r
            (check state.default_rpm w1.windows agent_id (some 60) r.instant).0
          ≡ ok tt =
        ap (λ (x : Result Answer (Unit {0}) × World F C). x.0) h2 in
      (
        check_provenance-ok agent_id agent req.mandate w
            (ap (λ (x : Result Answer (Unit {0}) × World F C). x.0) h1),
        subst
            (λ (ws : Windows).
              (left : ℕ) × ((check state.default_rpm ws agent_id (some 60) r.instant).0 ≡ ok left))
            same (within_rate-ok _ rated),
        h3,
        ap (λ (x : Result Answer (ResolvedCapability F × F) × World F C). x.0) k3,
      )

  pub preflight-ok :
      (w v : World F C) (terms : ResolvedCapability F × F)
      → preflight state r w ≡ (ok terms, v)
      → IsCleared w terms
  unfolding preflight
  preflight-ok w v terms h =
      let (req, h1, k1) = lift-inverts (check_request r.body) _ w h in
      let (caller, h2, k2) =
        lift-inverts (check_agent state.bcrypt_verify r.headers r.has_pool r.row r.now) _ w k1 in
      let (proven, rated, uncached, ht) = admit-ok req caller.0 caller.1 w v terms k2 in
      let (received, well_formed) = check_request-ok r.body req h1 in
      let (published, served, valid, allowed) =
        check_terms-ok state.lt state.parse_f64 r.now r.resolution r.schema req caller.1 terms.0
          terms.1 ht in
      record {
        request = req;
        agent_id = caller.0;
        agent = caller.1;
        received = received;
        well_formed = well_formed;
        authentic =
            check_agent-ok state.bcrypt_verify r.headers r.has_pool r.row r.now caller.0 caller.1
              h2;
        proven = proven;
        in_rate = rated;
        uncached = uncached;
        published = published;
        served = served;
        valid_input = valid;
        allowed = allowed;
      }

  -- The payment: a settlement by x402 in the table of that time, or a balance that covers the price.
  abbrev pub IsPaid : Table → F → Option X402Billing → Type 0
  IsPaid t price (some b) = (state.dispatch_x402 price t).0 ≡ settled b
  IsPaid t price none = (b : F) × (r.balance ≡ ok b) × (state.lt b price ≡ false)

  unpaid-ok :
      (price : F) (t : Table) (billing : Option X402Billing)
      → unpaid (check_balance state.lt state.parse_f64 price r.balance) ≡ ok billing
      → IsPaid t price billing
  unfolding unpaid
  unpaid-ok price t billing h =
      elim (Result-cases (check_balance state.lt state.parse_f64 price r.balance)) [
        | inl (u, e) ↦
            subst (IsPaid t price) (ok-injective (rw (e, unpaid) at h))
              (check_balance-ok state.lt state.parse_f64 price r.balance e)
        | inr (answer, e) ↦ absurd (err_ne_ok (rw (e, unpaid) at h))
      ]

  pub paid-ok :
      (price : F) (t : Table) (outcome : X402Outcome) (billing : Option X402Billing)
      → (state.dispatch_x402 price t).0 ≡ outcome
      → paid state r price outcome ≡ ok billing
      → IsPaid t price billing
  unfolding paid
  paid-ok price t (settled b) billing e h = subst (IsPaid t price) (ok-injective h) e
  paid-ok price t (error x) billing e h = absurd (cc)
  paid-ok price t fallthrough_to_wallet billing e h = unpaid-ok price t billing h
  paid-ok price t no_x_payment billing e h = unpaid-ok price t billing h
