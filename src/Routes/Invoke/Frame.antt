-- ===== src/Routes/Invoke/Frame.antt =====
-- src/routes/invoke.rs: how the parts of the handler leave its log of what it did to others.
use Prim.Native.String.{String}
use jecp_server.Prelude.{
  ℕ, ◌≡◌, refl, ap, ◌∙◌, Option, none, some, List, Text, Result, ok, err, ok-injective,
}
use jecp_server.Auth.Agent.{AgentProfile}
use jecp_server.Auth.Provenance.{ProvenanceSubcause}
use jecp_server.Routes.InvokeChecks.{
  Mandate, InvokeRequest, Answer, check_request, check_agent, check_cache,
}
use jecp_server.Services.Settlements.{Table}
use jecp_server.Routes.Invoke.{
  Effect, World, AppState, Readings, Handler, go_on, ◌>>=◌, lift, register, check_claim, check_hash,
  check_provenance, check_rate, admit, preflight,
}

module _ {F C : Type 0} where
  go_on_inverts :
      {A B : Type 0} (x : Result Answer A × World F C) (next : A → Handler F C B) {b : B}
      {w' : World F C}
      → go_on x next ≡ (ok b, w')
      → (a : A) × (v : World F C) × (x ≡ (ok a, v)) × (next a v ≡ (ok b, w'))
  go_on_inverts {A} {B} (err answer, v) next {b} h =
      let e : ◌≡◌ {A = Result Answer B} (err answer) (ok b) =
        ap (λ (y : Result Answer B × World F C). y.0) h in
      absurd (cc)
  go_on_inverts (ok a, v) next h = (a, v, refl, h)

  -- A chain that succeeds has gone through its first part.
  pub >>=-inverts :
      {A B : Type 0} (m : Handler F C A) (next : A → Handler F C B) (w : World F C) {b : B}
      {w' : World F C}
      → (m >>= next) w ≡ (ok b, w')
      → (a : A) × (v : World F C) × (m w ≡ (ok a, v)) × (next a v ≡ (ok b, w'))
  >>=-inverts m next w h = go_on_inverts (m w) next h

  -- The same of a part that changes no state.
  pub lift-inverts :
      {A B : Type 0} (x : Result Answer A) (next : A → Handler F C B) (w : World F C) {b : B}
      {w' : World F C}
      → (lift x >>= next) w ≡ (ok b, w')
      → (a : A) × (x ≡ ok a) × (next a w ≡ (ok b, w'))
  lift-inverts {A} {B} (err answer) next w {b} h =
      let e : ◌≡◌ {A = Result Answer B} (err answer) (ok b) =
        ap (λ (y : Result Answer B × World F C). y.0) h in
      absurd (cc)
  lift-inverts (ok a) next w h = (a, refl, h)

  -- A chain whose first part has answered, and one whose first part has a value.
  pub go_on_err :
      {A B : Type 0} (x : Result Answer A × World F C) (next : A → Handler F C B) (answer : Answer)
      → x.0 ≡ err answer
      → go_on x next ≡ (err answer, x.1)
  go_on_err {A} {B} (err e, v) next answer h =
      let same : e ≡ answer = cc in
      let refuse : Answer → Result Answer B × World F C = λ a. (err a, v) in ap refuse same
  go_on_err (ok a, v) next answer h = absurd (cc)

  pub go_on_ok :
      {A B : Type 0} (x : Result Answer A × World F C) (next : A → Handler F C B) (a : A)
      → x.0 ≡ ok a
      → go_on x next ≡ next a x.1
  go_on_ok (err e, v) next a h = absurd (cc)
  go_on_ok (ok b, v) next a h = ap (λ c. next c v) (ok-injective h)

  -- What was done to others, and the settlements, are as they were.
  abbrev pub outside : World F C → List (Effect F) × Table
  outside w = (w.log, w.settlements)

  abbrev pub IsQuiet : {A : Type 0} → Handler F C A → Type 0
  IsQuiet m = (w : World F C) → outside (m w).1 ≡ outside w

  go_on-IsQuiet :
      {A B : Type 0} (x : Result Answer A × World F C) (next : A → Handler F C B)
      → ((a : A) → IsQuiet (next a))
      → outside (go_on x next).1 ≡ outside x.1
  go_on-IsQuiet (err answer, v) next h = refl
  go_on-IsQuiet (ok a, v) next h = h a v

  pub >>=-IsQuiet :
      {A B : Type 0} (m : Handler F C A) (next : A → Handler F C B)
      → IsQuiet m
      → ((a : A) → IsQuiet (next a))
      → IsQuiet (m >>= next)
  >>=-IsQuiet m next hm hn = λ w. go_on-IsQuiet (m w) next hn ∙ hm w

  module _ (state : AppState F C) (r : Readings F) where
    check_claim-IsQuiet :
        (agent_id : String) (claim : Result ProvenanceSubcause (Option (ℕ × Text)))
        → IsQuiet (check_claim state r agent_id claim)
    unfolding check_claim register
    check_claim-IsQuiet agent_id (err e) = λ w. refl
    check_claim-IsQuiet agent_id (ok none) = λ w. refl
    check_claim-IsQuiet agent_id (ok (some (t, nonce))) = λ w. refl

    check_hash-IsQuiet :
        (agent_id : String) (agent : AgentProfile) (m : Mandate F) (hash : Option Text)
        → IsQuiet (check_hash state r agent_id agent m hash)
    unfolding check_hash
    check_hash-IsQuiet agent_id agent m none = λ w. refl
    check_hash-IsQuiet agent_id agent m (some claimed) = check_claim-IsQuiet agent_id _

    check_provenance-IsQuiet :
        (agent_id : String) (agent : AgentProfile) (m : Option (Mandate F))
        → IsQuiet (check_provenance state r agent_id agent m)
    unfolding check_provenance
    check_provenance-IsQuiet agent_id agent none = λ w. refl
    check_provenance-IsQuiet agent_id agent (some m) =
        check_hash-IsQuiet agent_id agent m m.provenance_hash

    check_rate-IsQuiet : (agent_id : String) → IsQuiet (check_rate state r agent_id)
    unfolding check_rate
    check_rate-IsQuiet agent_id = λ w. refl

    admit-IsQuiet :
        (req : InvokeRequest F) (agent_id : String) (agent : AgentProfile)
        → IsQuiet (admit state r req (agent_id, agent))
    unfolding admit
    admit-IsQuiet req agent_id agent =
        >>=-IsQuiet (check_provenance state r agent_id agent req.mandate) _
          (check_provenance-IsQuiet agent_id agent req.mandate)
          (λ u.
            >>=-IsQuiet (check_rate state r agent_id) _ (check_rate-IsQuiet agent_id)
              (λ v. >>=-IsQuiet (lift (check_cache r.cached)) _ (λ w. refl) (λ x w. refl)))

    -- The pre-flight does nothing to others.
    pub preflight-IsQuiet : IsQuiet (preflight state r)
    unfolding preflight
    preflight-IsQuiet =
        >>=-IsQuiet (lift (check_request r.body)) _ (λ w. refl)
          (λ req.
            >>=-IsQuiet (lift (check_agent state.bcrypt_verify r.headers r.has_pool r.row r.now)) _
              (λ w. refl) (λ caller. admit-IsQuiet req caller.0 caller.1))
