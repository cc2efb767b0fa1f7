-- ===== src/Routes/InvokeChecks/Agreement.antt =====
-- src/routes/invoke.rs: the pre-flight of the streaming path against that of the JSON path.
use jecp_server.Prelude.{
  ℕ, ◌≡◌, refl, inl, inr, Bool, true, Option, some, Text, Result, ok, ◌>>=◌, ◌>>◌, Result-cases,
}
use jecp_server.Auth.Agent.{AgentProfile}
use jecp_server.Routes.ManifestRead.{extract_action_streaming}
use jecp_server.Routes.InvokeChecks.{
  InvokeRequest, ResolvedCapability, check_resolved, check_sunset, check_price, check_trust,
  check_mandate, check_balance, check_terms, check_stream_terms,
}

module _ {F : Type 0} (lt : F → F → Bool) (parse_f64 : Text → Option F) where
  -- For a capability that is published and not past its sunset, an action that streams, and an input that
  -- its schema allows, the streaming path refuses and lets through what the JSON path does with its terms
  -- and then its test of the balance, with the same answers.
  pub check_stream_terms-check_terms :
      (now : ℕ) (r : ResolvedCapability F) (balance : Result (Unit {0}) F) (req : InvokeRequest F)
      (agent : AgentProfile)
      → check_sunset now r.sunset_at ≡ ok tt
      → extract_action_streaming r.parsed_json req.action ≡ true
      → check_stream_terms lt parse_f64 now (ok (some r)) balance req agent ≡ (
          check_terms lt parse_f64 now (ok (some r)) (ok tt) req agent
          >>= λ (x : ResolvedCapability F × F). check_balance lt parse_f64 x.1 balance >> ok x)
  unfolding check_stream_terms check_terms check_resolved
  check_stream_terms-check_terms now r balance req agent hs ht =
      rw (hs, ht)
        (elim (Result-cases (check_price lt parse_f64 r.parsed_json req.action)) [
          | inr (e, hp) ↦ rw hp refl
          | inl (p, hp) ↦
              elim (Result-cases (check_trust lt parse_f64 r.parsed_json req.action agent)) [
                | inr (e, hq) ↦ rw (hp, hq) refl
                | inl (u, hq) ↦ elim (Result-cases (check_mandate lt parse_f64 now p req.mandate)) [
                  | inr (e, hm) ↦ rw (hp, hq, hm) refl
                  | inl (v, hm) ↦ rw (hp, hq, hm) refl
                ]
              ]
        ])
