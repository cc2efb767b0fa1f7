-- ===== src/Routes/Invoke/Outcomes.antt =====
-- src/routes/invoke.rs: the ways in which a call ends after its pre-flight.
use mathlib.Core.List.{append_assoc, append-nil}
use jecp_server.Prelude.{
  ℕ, ◌<◌, ◌≤◌, arith, ◌≢◌, ◌≡◌, refl, sym, ap, ◌∙◌, ◌⊎◌, inl, inr, Bool, true, false, Option, none,
  some, List, [], ◌∷◌, ◌++◌, Text, leb, ltb, ◌&&◌, Bool-cases, Result, ok, err, if◌then◌else◌,
}
use jecp_server.Protocol.UrlGuard.{ValidatedUrl, UrlGuardError}
use jecp_server.Routes.InvokeChecks.{Answer, refused, ResolvedCapability}
use jecp_server.Routes.InvokeX402.{
  X402Billing, X402Outcome, settled, fallthrough_to_wallet, no_x_payment, error,
}
use jecp_server.Services.Settlements.{Table}
use jecp_server.Routes.Invoke.{
  Effect, forwarded, stored, charged, World, AppState, Readings, Handler, go_on, ◌>>◌, lift, note,
  paid, forward, bill, bill_wallet, InvokeResponse, BillingSummary, by_x402, by_wallet, not_charged,
  reachable, check_endpoint, answered, finish, keep, ProviderResponse, InvokeChargeResult,
}
use jecp_server.Routes.Invoke.Frame.{go_on_ok}
use jecp_server.Routes.Invoke.Guarded.{IsPaid}

if_ok :
    {E : Type 0} (b : Bool) (x : Result E (Unit {0})) (e : E)
    → (if b then x else err e) ≡ ok tt
    → x ≡ ok tt
if_ok true x e h = h
if_ok false x e h = absurd (cc)

ok_ne_err : {E A : Type 0} {e : E} {a : A} → ◌≡◌ {A = Result E A} (ok a) (err e) → ⊥
ok_ne_err h = cc

err-injective : {E A : Type 0} {e f : E} → ◌≡◌ {A = Result E A} (err e) (err f) → e ≡ f
err-injective h = cc

pub outside :
    (status : ℕ) → (leb 200 status && ltb status 300) ≡ false → (status < 200) ⊎ (300 ≤ status)
outside status h = ground arith

module _ {F C : Type 0} (state : AppState F C) (r : Readings F) where
  -- The charge of the wallet, which is made only where x402 did not pay, and then only if it succeeds.
  abbrev pub wallet_effects :
      F → Option X402Billing → Result (Unit {0}) (Option (InvokeChargeResult F)) → List (Effect F)
  wallet_effects price (some b) charge = []
  wallet_effects price none (err e) = []
  wallet_effects price none (ok none) = []
  wallet_effects price none (ok (some c)) = charged price ∷ []

  abbrev pub summary :
      F → Option X402Billing → Result (Unit {0}) (Option (InvokeChargeResult F)) → BillingSummary F
  summary price (some b) charge = by_x402 b
  summary price none (err e) = not_charged price
  summary price none (ok none) = not_charged price
  summary price none (ok (some c)) = by_wallet price c

  bill_wallet-summary :
      (price : F) (charge : Result (Unit {0}) (Option (InvokeChargeResult F))) (w : World F C)
      → ((bill_wallet state r price charge w).0 ≡ ok (summary price none charge))
        × ((bill_wallet state r price charge w).1.log ≡ w.log ++ wallet_effects price none charge)
  unfolding bill_wallet note
  bill_wallet-summary price (err e) w = (refl, sym (append-nil w.log))
  bill_wallet-summary price (ok none) w = (refl, sym (append-nil w.log))
  bill_wallet-summary price (ok (some c)) w = (refl, refl)

  bill-summary :
      (price : F) (billing : Option X402Billing) (w : World F C)
      → ((bill state r price billing w).0 ≡ ok (summary price billing r.charge))
        × ((bill state r price billing w).1.log ≡ w.log ++ wallet_effects price billing r.charge)
  unfolding bill
  bill-summary price (some b) w = (refl, sym (append-nil w.log))
  bill-summary price none w = bill_wallet-summary price r.charge w

  -- A call that was refused with nothing done to others, and no settlement made.
  abbrev pub IsRefused :
      List (Effect F) → Table → Result Answer (InvokeResponse F) × World F C → Type 0
  IsRefused log t x =
      ((answer : Answer) × (x.0 ≡ err answer)) × (x.1.log ≡ log) × (x.1.settlements ≡ t)

  -- What a provider's answer makes of a call that went to it: the call goes no further if the provider
  -- fails; otherwise it is billed once, by x402 or by the wallet, and its response is kept for retries.
  abbrev pub IsReplied :
      Result (Unit {0}) ProviderResponse
      → List (Effect F)
      → F
      → Option X402Billing
      → Result Answer (InvokeResponse F) × World F C
      → Type 0
  IsReplied (err e) log price billing x =
      (x.0 ≡ err (refused 502 "PROVIDER_UNREACHABLE")) × (x.1.log ≡ log ++ forwarded ∷ [])
  IsReplied (ok p) log price billing x =
      (((p.status < 200) ⊎ (300 ≤ p.status))
        × (x.0 ≡ err (refused 502 "PROVIDER_ERROR"))
        × (x.1.log ≡ log ++ forwarded ∷ []))
      ⊎ ((200 ≤ p.status)
          × (p.status < 300)
          × (x.0 ≡ ok (record { result = p.body; billing = summary price billing r.charge }))
          × (x.1.log ≡ log ++ forwarded ∷ (wallet_effects price billing r.charge ++ stored ∷ [])))

  -- A call that is refused where its x402 dispatch did not settle: it does not go out and is not charged.
  abbrev pub IsUnpaid :
      List (Effect F) → Table → F → Result Answer (InvokeResponse F) × World F C → Type 0
  IsUnpaid log t price x =
      ((answer : Answer) × (x.0 ≡ err answer))
      × (x.1.log ≡ log)
      × (x.1.settlements ≡ (state.dispatch_x402 price t).1)
      × ((b : X402Billing) → (state.dispatch_x402 price t).0 ≢ settled b)

  -- Why a call that is paid does not go to its endpoint, and what is answered.
  abbrev pub IsBlocked : ResolvedCapability F → Answer → Type 0
  IsBlocked resolved answer =
      ((r.signed ≡ false) × (answer ≡ refused 500 "HMAC_ERROR"))
      ⊎ (((e : UrlGuardError) × (state.validate_outbound_url resolved.endpoint_url ≡ err e))
          × (answer ≡ refused 422 "URL_BLOCKED_SSRF"))
      ⊎ ((r.client_built ≡ false) × (answer ≡ refused 500 "HTTP_CLIENT"))

  -- A call that is stopped when it is paid already: a settlement of x402 stands, the wallet is not charged.
  abbrev pub IsStopped :
      List (Effect F)
      → Table
      → ResolvedCapability F × F
      → Result Answer (InvokeResponse F) × World F C
      → Type 0
  IsStopped log t terms x =
      ((billing : Option X402Billing) × IsPaid state r t terms.1 billing)
      × ((answer : Answer) × IsBlocked terms.0 answer × (x.0 ≡ err answer))
      × (x.1.log ≡ log)
      × (x.1.settlements ≡ (state.dispatch_x402 terms.1 t).1)

  -- A call that was paid, by the settlements of that time or by the balance, that went to an endpoint which the
  -- guard of URLs lets through, and of which the provider's answer made the rest.
  abbrev pub IsForwarded :
      List (Effect F)
      → Table
      → ResolvedCapability F × F
      → Result Answer (InvokeResponse F) × World F C
      → Type 0
  IsForwarded log t terms x =
      (billing : Option X402Billing) × IsPaid state r t terms.1 billing
      × ((u : ValidatedUrl) × (state.validate_outbound_url terms.0.endpoint_url ≡ ok u))
      × IsReplied r.provider log terms.1 billing x

  abbrev pub IsDone :
      List (Effect F)
      → Table
      → ResolvedCapability F × F
      → Result Answer (InvokeResponse F) × World F C
      → Type 0
  IsDone log t terms x =
      IsUnpaid log t terms.1 x ⊎ IsStopped log t terms x ⊎ IsForwarded log t terms x

  reachable-ok :
      (x : Result UrlGuardError ValidatedUrl)
      → reachable state r x ≡ ok tt
      → (u : ValidatedUrl) × (x ≡ ok u)
  unfolding reachable
  reachable-ok (err e) h = absurd (cc)
  reachable-ok (ok u) h = (u, refl)

  pub check_endpoint-ok :
      (resolved : ResolvedCapability F)
      → check_endpoint state r resolved ≡ ok tt
      → (u : ValidatedUrl) × (state.validate_outbound_url resolved.endpoint_url ≡ ok u)
  unfolding check_endpoint
  check_endpoint-ok resolved h = reachable-ok (state.validate_outbound_url resolved.endpoint_url) (
      if_ok r.signed (reachable state r (state.validate_outbound_url resolved.endpoint_url))
        (refused 500 "HMAC_ERROR") h)

  reachable-err :
      (x : Result UrlGuardError ValidatedUrl) (answer : Answer)
      → reachable state r x ≡ err answer
      → (((e : UrlGuardError) × (x ≡ err e)) × (answer ≡ refused 422 "URL_BLOCKED_SSRF"))
        ⊎ ((r.client_built ≡ false) × (answer ≡ refused 500 "HTTP_CLIENT"))
  unfolding reachable
  reachable-err (err e) answer h = inl ((e, refl), sym (err-injective h))
  reachable-err (ok u) answer h = elim (Bool-cases r.client_built) [
    | inl c ↦ absurd (ok_ne_err (rw c at h))
    | inr c ↦ inr (c, sym (err-injective (rw c at h)))
  ]

  pub check_endpoint-err :
      (resolved : ResolvedCapability F) (answer : Answer)
      → check_endpoint state r resolved ≡ err answer
      → IsBlocked resolved answer
  unfolding check_endpoint
  check_endpoint-err resolved answer h = elim (Bool-cases r.signed) [
    | inl s ↦
        inr (reachable-err (state.validate_outbound_url resolved.endpoint_url) answer (rw s at h))
    | inr s ↦ inl (s, sym (err-injective (rw s at h)))
  ]

  pub paid-err :
      (price : F) (outcome : X402Outcome) (answer : Answer)
      → paid state r price outcome ≡ err answer
      → (b : X402Billing) → outcome ≢ settled b
  unfolding paid
  paid-err price (settled b) answer h c e = absurd (ok_ne_err h)
  paid-err price (error x) answer h c e = cc
  paid-err price fallthrough_to_wallet answer h c e = cc
  paid-err price no_x_payment answer h c e = cc

  finish-billed :
      (price : F) (billing : Option X402Billing) (body : Text) (v : World F C)
      → ((finish state r price billing body v).0
          ≡ ok (record { result = body; billing = summary price billing r.charge }))
        × ((finish state r price billing body v).1.log
            ≡ v.log ++ (wallet_effects price billing r.charge ++ stored ∷ []))
  unfolding finish keep note
  finish-billed price billing body v =
      let (hs, hl) = bill-summary price billing v in
      let run =
        go_on_ok (bill state r price billing v) (keep state r body) (summary price billing r.charge)
          hs in
      (
        ap (λ (x : Result Answer (InvokeResponse F) × World F C). x.0) run,
        ap (λ (x : Result Answer (InvokeResponse F) × World F C). x.1.log) run
            ∙ ap (λ (l : List (Effect F)). l ++ stored ∷ []) hl
            ∙ append_assoc v.log (wallet_effects price billing r.charge) (stored ∷ []),
      )

  abbrev noted : World F C → World F C
  noted v = record v { log = v.log ++ forwarded ∷ [] }

  forward-answered :
      (resolved : ResolvedCapability F) (v : World F C)
      → check_endpoint state r resolved ≡ ok tt
      → forward state r resolved v ≡ (answered state r r.provider, noted v)
  unfolding forward note
  forward-answered resolved v he =
      let next : Unit {0} → Handler F C Text =
        λ u. note forwarded >> lift (answered state r r.provider) in
      go_on_ok (check_endpoint state r resolved, v) next tt he

  answered-IsReplied :
      (x : Result (Unit {0}) ProviderResponse) (price : F) (billing : Option X402Billing)
      (v : World F C)
      → IsReplied x v.log price billing
          (go_on (answered state r x, noted v) (finish state r price billing))
  unfolding answered
  answered-IsReplied (err e) price billing v = (refl, refl)
  answered-IsReplied (ok p) price billing v =
      elim (Bool-cases (leb 200 p.status && ltb p.status 300)) [
        | inl e ↦
            let (hs, hl) = finish-billed price billing p.body (noted v) in
            rw e (
              inr (
                ground arith,
                ground arith,
                hs,
                hl
                    ∙ append_assoc v.log (forwarded ∷ [])
                        (wallet_effects price billing r.charge ++ stored ∷ []),
              ))
        | inr e ↦ rw e (inl (outside p.status e, refl, refl))
      ]

  pub forward-IsReplied :
      (resolved : ResolvedCapability F) (price : F) (billing : Option X402Billing) (v : World F C)
      → check_endpoint state r resolved ≡ ok tt
      → IsReplied r.provider v.log price billing
          (go_on (forward state r resolved v) (finish state r price billing))
  forward-IsReplied resolved price billing v he =
      rw (forward-answered resolved v he) (answered-IsReplied r.provider price billing v)
