-- ===== src/Routes/InvokeX402/Admitted.antt =====
-- What the checks before the facilitator establish of a request.
use jecp_server.Prelude.{
  ℕ, ◌≡◌, refl, subst, Bool, true, false, Option, none, some, List, [], ◌∷◌, Text, any, arith,
  Result, ok, err, guard, ok_or, ◌>>=◌, >>=-eq-ok,
}
use Prim.Native.String.{String}
use jecp_server.Protocol.X402Types.{
  PaymentPayload, X402Error, not_accepted, payment_invalid, x402_disabled, capability_wallet_only,
  db_unavailable,
}
use jecp_server.Protocol.X402Verify.{decode_x_payment_header, validate_payment_payload}
use jecp_server.Protocol.X402Verify.Checks.{IsPayable, validated-IsPayable}
use jecp_server.Services.Settlements.{Table, exists_by_nonce, same_payment}
use jecp_server.Routes.InvokeX402.{
  X402Config, X402Outcome, Database, Request, presented, or_error, action_accepts_x402,
  requirements, unseen, preflight, settled, error, no_x_payment, fallthrough_to_wallet,
}

or_error-ok : {A : Type 0} (m : Result X402Error A) {a : A} → or_error m ≡ ok a → m ≡ ok a
unfolding or_error
or_error-ok (ok a) h = cc
or_error-ok (err e) h = absurd (cc)

guard-ok : {E : Type 0} (b : Bool) (e : E) → guard b e ≡ ok tt → b ≡ true
guard-ok true e h = refl
guard-ok false e h = absurd (cc)

ok_or-ok : {E A : Type 0} (o : Option A) (e : E) {a : A} → ok_or o e ≡ ok a → o ≡ some a
ok_or-ok none e h = absurd (cc)
ok_or-ok (some a) e h = cc

ok-injective : {E A : Type 0} {a b : A} → ◌≡◌ {A = Result E A} (ok a) (ok b) → a ≡ b
ok-injective h = cc

-- A refusal is an error, or says that there is no payment: it neither settles nor falls through.
abbrev pub IsRefusal : {A : Type 0} → Result X402Outcome A → Type 0
IsRefusal (ok a) = Unit
IsRefusal (err no_x_payment) = Unit
IsRefusal (err (error e)) = Unit
IsRefusal (err (settled b)) = ⊥
IsRefusal (err fallthrough_to_wallet) = ⊥

pub record Refuses {A : Type 0} (m : Result X402Outcome A) : Type 0 where
  pub refusal : IsRefusal m

IsRefusal->>= :
    {A B : Type 0} (m : Result X402Outcome A) (f : A → Result X402Outcome B)
    → IsRefusal m
    → ((a : A) → IsRefusal (f a))
    → IsRefusal (m >>= f)
IsRefusal->>= (ok a) f h k = k a
IsRefusal->>= (err no_x_payment) f h k = tt
IsRefusal->>= (err (error e)) f h k = tt
IsRefusal->>= (err (settled b)) f h k = absurd h
IsRefusal->>= (err fallthrough_to_wallet) f h k = absurd h

Refuses->>= :
    {A B : Type 0} (m : Result X402Outcome A) (f : A → Result X402Outcome B)
    → Refuses m
    → ((a : A) → Refuses (f a))
    → Refuses (m >>= f)
Refuses->>= m f h k = record { refusal = IsRefusal->>= m f h.refusal (λ a. (k a).refusal) }

or_error-Refuses : {A : Type 0} (m : Result X402Error A) → Refuses (or_error m)
unfolding or_error
or_error-Refuses (ok a) = record { refusal = tt }
or_error-Refuses (err e) = record { refusal = tt }

or_error->>= :
    {A B : Type 0} (m : Result X402Error A) (f : A → Result X402Outcome B)
    → ((a : A) → Refuses (f a))
    → Refuses (or_error m >>= f)
or_error->>= m f = Refuses->>= (or_error m) f (or_error-Refuses m)

presented-Refuses : (vs : List (Option Text)) → Refuses (presented vs)
unfolding presented
presented-Refuses [] = record { refusal = tt }
presented-Refuses (none ∷ []) = record { refusal = tt }
presented-Refuses (some [] ∷ []) = record { refusal = tt }
presented-Refuses (some (c ∷ cs) ∷ []) = record { refusal = tt }
presented-Refuses (v ∷ w ∷ vs) = record { refusal = tt }

module _ (base64_decoded : Text → Option Text) (json_parsed : Text → Option PaymentPayload)
    (derive_capability_id : String → String → String → ℕ) where
  -- The checks, as facts.
  pub record IsAdmitted (configured : Option X402Config) (enabled : Bool) (d : Database)
      (now_unix : ℕ) (q : Request) (t : Table) (cfg : X402Config) (payload : PaymentPayload)
      : Type 0 where
    pub configuration : configured ≡ some cfg
    pub switch : enabled ≡ true
    pub accepts : action_accepts_x402 q.manifest q.action_id ≡ true
    pub header :
        (raw : Text) × (presented q.x_payment ≡ ok raw)
        × (decode_x_payment_header base64_decoded json_parsed raw ≡ ok payload)
    pub payable :
        IsPayable payload
          (requirements base64_decoded json_parsed derive_capability_id cfg q)
          now_unix
    pub fresh :
        any (same_payment payload.payload.authorization.from payload.payload.authorization.nonce) t
        ≡ false

  pub preflight-Refuses :
      (configured : Option X402Config) (enabled : Bool) (d : Database) (now_unix : ℕ) (q : Request)
      (t : Table)
      → Refuses (
          preflight base64_decoded json_parsed derive_capability_id configured enabled d now_unix q
            t)
  unfolding preflight
  preflight-Refuses configured enabled d now_unix q t =
      Refuses->>= (presented q.x_payment) _ (presented-Refuses q.x_payment) λ raw.
        or_error->>= (ok_or configured (not_accepted x402_disabled)) _ λ cfg.
          or_error->>= (guard enabled (not_accepted x402_disabled)) _ λ _.
            or_error->>=
              (guard (action_accepts_x402 q.manifest q.action_id)
                (not_accepted capability_wallet_only))
              _
              λ _.
                or_error->>= (decode_x_payment_header base64_decoded json_parsed raw) _ λ payload.
                  or_error->>= (validate_payment_payload payload _ now_unix) _ λ _.
                    or_error->>= (guard d.has_pool (payment_invalid db_unavailable)) _ λ _.
                      or_error->>=
                        (unseen base64_decoded json_parsed derive_capability_id d payload t) _
                        λ _. record { refusal = tt }

  unseen-ok :
      (d : Database) (payload : PaymentPayload) (t : Table)
      → unseen base64_decoded json_parsed derive_capability_id d payload t ≡ ok tt
      → any (same_payment payload.payload.authorization.from payload.payload.authorization.nonce) t
        ≡ false
  unfolding unseen exists_by_nonce
  unseen-ok d payload t h = ground arith

  pub preflight-IsAdmitted :
      (configured : Option X402Config) (enabled : Bool) (d : Database) (now_unix : ℕ) (q : Request)
      (t : Table) (cfg : X402Config) (payload : PaymentPayload)
      → preflight base64_decoded json_parsed derive_capability_id configured enabled d now_unix q t
        ≡ ok (cfg, payload)
      → IsAdmitted configured enabled d now_unix q t cfg payload
  unfolding preflight
  preflight-IsAdmitted configured enabled d now_unix q t cfg payload h =
      let a = >>=-eq-ok (presented q.x_payment) _ h in
      let b = >>=-eq-ok (or_error (ok_or configured _)) _ a.2 in
      let c = >>=-eq-ok (or_error (guard enabled _)) _ b.2 in
      let k = >>=-eq-ok (or_error (guard (action_accepts_x402 q.manifest q.action_id) _)) _ c.2 in
      let p = >>=-eq-ok (or_error (decode_x_payment_header base64_decoded json_parsed a.0)) _ k.2 in
      let v = >>=-eq-ok (or_error (validate_payment_payload p.0 _ now_unix)) _ p.2 in
      let o = >>=-eq-ok (or_error (guard d.has_pool _)) _ v.2 in
      let u =
        >>=-eq-ok (or_error (unseen base64_decoded json_parsed derive_capability_id d p.0 t)) _
          o.2 in
      subst (λ x. IsAdmitted configured enabled d now_unix q t x.0 x.1) (ok-injective u.2)
        (record {
          configuration = ok_or-ok configured _ (or_error-ok _ b.1);
          switch = guard-ok enabled _ (or_error-ok _ c.1);
          accepts = guard-ok _ _ (or_error-ok _ k.1);
          header = (a.0, a.1, or_error-ok _ p.1);
          payable = validated-IsPayable p.0 _ now_unix (or_error-ok _ v.1);
          fresh = unseen-ok d p.0 t (or_error-ok _ u.1);
        })
