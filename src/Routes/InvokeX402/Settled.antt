-- ===== src/Routes/InvokeX402/Settled.antt =====
-- What holds of a request whose payment is settled.
use Prim.Native.String.{String}
use jecp_server.Prelude.{
  ℕ, ◌%◌, ◌^◌, none, ◌≡◌, refl, ap, subst, ◌∙◌, Bool, true, false, Option, some, List, [], ◌∷◌,
  ◌++◌, Text, any, Result, ok, err, Bool-cases, Result-cases, Option-cases, inl, inr,
}
use jecp_server.Protocol.X402Types.{PaymentPayload, SettleResponse, VerifyResponse, X402Error}
use jecp_server.Protocol.X402Types.{facilitator_attested}
use jecp_server.Services.Settlements.{Table, X402Settlement, fresh_row, same_payment}
use jecp_server.Services.Settlements.History.{insert_cases}
use jecp_server.Routes.InvokeX402.{
  X402Config, X402Outcome, X402Billing, Database, Request, FacilitatorCall, verify_call,
  settle_call, requirements, preflight, settled, error, new_settlement, billing, settle_step,
  verify_and_settle, persist, split_shares, answer, finish, proceed, dispatch_x402,
}
use jecp_server.Routes.InvokeX402.Admitted.{
  IsAdmitted, preflight-IsAdmitted, preflight-Refuses, Refuses,
}

settled-injective : {a b : X402Billing} → settled a ≡ settled b → a ≡ b
settled-injective h = cc

Refuses-settled : {A : Type 0} {b : X402Billing} → Refuses {A = A} (err (settled b)) → ⊥
Refuses-settled h = h.refusal

module _ (base64_decoded : Text → Option Text) (json_parsed : Text → Option PaymentPayload)
    (derive_capability_id : String → String → String → ℕ) where
  -- The facilitator held the payment for valid, and settled it in the transaction.
  pub record IsPaid (cfg : X402Config) (q : Request) (payload : PaymentPayload) (tx : ℕ)
      (r : SettleResponse) : Type 0 where
    pub verified :
        (v : VerifyResponse) × (cfg.verify payload
            (requirements base64_decoded json_parsed derive_capability_id cfg q)
          ≡ ok v)
        × (v.is_valid ≡ true)
    pub settled_by :
        cfg.settle payload (requirements base64_decoded json_parsed derive_capability_id cfg q)
        ≡ ok r
    pub succeeded : r.success ≡ true
    pub transaction : r.tx_hash ≡ some tx

  settle_step-cases :
      (P : List FacilitatorCall × Result X402Error (ℕ × SettleResponse) → Type 0) (cfg : X402Config)
      (q : Request) (payload : PaymentPayload)
      → ((e : X402Error) → P (verify_call ∷ settle_call ∷ [], err e))
      → ((tx : ℕ) (r : SettleResponse)
          → cfg.settle payload (requirements base64_decoded json_parsed derive_capability_id cfg q)
            ≡ ok r
          → r.success ≡ true
          → r.tx_hash ≡ some tx
          → P (verify_call ∷ settle_call ∷ [], ok (tx, r)))
      → P (settle_step base64_decoded json_parsed derive_capability_id cfg q payload)
  unfolding settle_step requirements
  settle_step-cases P cfg q payload failing paying =
      elim (Result-cases
        (cfg.settle payload (requirements base64_decoded json_parsed derive_capability_id cfg q))) [
          | inr (e, h) ↦ rw (h, settle_step) (failing e)
          | inl (r, h) ↦ elim (Bool-cases r.success) [
            | inr f ↦ rw (h, settle_step, f) (failing _)
            | inl s ↦ elim (Option-cases r.tx_hash) [
              | inl n ↦ rw (h, settle_step, s, n) (failing _)
              | inr (tx, x) ↦ rw (h, settle_step, s, x) (paying tx r h s x)
            ]
          ]
        ]

  -- The facilitator's part, by its outcome.
  verify_and_settle-cases :
      (P : List FacilitatorCall × Result X402Error (ℕ × SettleResponse) → Type 0) (cfg : X402Config)
      (q : Request) (payload : PaymentPayload)
      → ((calls : List FacilitatorCall) (e : X402Error) → P (calls, err e))
      → ((tx : ℕ) (r : SettleResponse)
          → IsPaid cfg q payload tx r
          → P (verify_call ∷ settle_call ∷ [], ok (tx, r)))
      → P (verify_and_settle base64_decoded json_parsed derive_capability_id cfg q payload)
  unfolding verify_and_settle requirements
  verify_and_settle-cases P cfg q payload failing paying =
      elim (Result-cases
        (cfg.verify payload (requirements base64_decoded json_parsed derive_capability_id cfg q))) [
          | inr (e, h) ↦ rw (h, verify_and_settle) (failing _ e)
          | inl (v, h) ↦ elim (Bool-cases v.is_valid) [
            | inr f ↦ rw (h, verify_and_settle, f) (failing _ _)
            | inl s ↦
                rw (h, verify_and_settle, s)
                  (settle_step-cases P cfg q payload (failing _) (λ tx r a b c.
                    paying tx r (record {
                      verified = (v, h, s);
                      settled_by = a;
                      succeeded = b;
                      transaction = c;
                    })))
          ]
        ]

  -- The row of a settlement: the payment and its transaction, the request, and the split of its amount,
  -- attested and not yet reconciled.
  pub record IsRowOf (now : ℕ) (q : Request) (payload : PaymentPayload) (b : X402Billing)
      (row : X402Settlement) : Type 0 where
    pub id : row.id ≡ b.settlement_id
    pub tx_hash : row.tx_hash ≡ b.tx_hash
    pub payer : row.payer ≡ payload.payload.authorization.from
    pub nonce : row.eip3009_nonce ≡ payload.payload.authorization.nonce
    pub agent_id : row.agent_id ≡ q.agent_id
    pub capability_id : row.capability_id ≡ q.capability_id
    pub request_id : row.request_id ≡ q.request_id
    pub splitter_capability_id :
        row.splitter_capability_id ≡ derive_capability_id q.namespace q.action_id q.version
    pub amount : row.amount_usdc_micro ≡ q.amount_micro % 2 ^ 64
    pub provider_share : row.provider_share_micro ≡ (split_shares q.amount_micro).provider
    pub hub_share : row.hub_share_micro ≡ (split_shares q.amount_micro).hub
    pub network_share : row.network_share_micro ≡ (split_shares q.amount_micro).network
    pub attested : row.status ≡ facilitator_attested
    pub settled_at : row.settled_at ≡ now
    pub untouched : (row.reconcile_attempts ≡ 0) × (row.chain_confirmed_at ≡ none)

  -- The bill says the same.
  pub record IsBillOf (q : Request) (b : X402Billing) : Type 0 where
    pub amount : b.amount_micro ≡ q.amount_micro
    pub provider : b.provider_micro ≡ (split_shares q.amount_micro).provider
    pub hub : b.hub_micro ≡ (split_shares q.amount_micro).hub
    pub network : b.network_micro ≡ (split_shares q.amount_micro).network

  -- What a settlement comes from.
  pub record IsSettled (configured : Option X402Config) (enabled : Bool) (d : Database)
      (now_unix : ℕ) (q : Request) (before t : Table) (b : X402Billing) (after : Table)
      : Type 0 where
    pub config : X402Config
    pub payload : PaymentPayload
    pub response : SettleResponse
    pub admitted :
        IsAdmitted base64_decoded json_parsed derive_capability_id configured enabled d now_unix q
          before config payload
    pub paid : IsPaid config q payload b.tx_hash response
    pub unrecorded :
        any (same_payment payload.payload.authorization.from payload.payload.authorization.nonce) t
        ≡ false
    pub row : X402Settlement
    pub entry : IsRowOf d.now q payload b row
    pub bill_of : IsBillOf q b
    pub recorded : after ≡ t ++ row ∷ []

  persist-cases :
      (P : X402Outcome × Table → Type 0) (cfg : X402Config) (d : Database) (q : Request)
      (payload : PaymentPayload) (tx : ℕ) (r : SettleResponse) (t : Table)
      → ((e : X402Error) → P (error e, t))
      → (any (same_payment payload.payload.authorization.from payload.payload.authorization.nonce) t
            ≡ false
          → P (
            settled (
                billing base64_decoded json_parsed derive_capability_id cfg q payload d.fresh_id tx
                  r),
            t
                ++ fresh_row d.now d.fresh_id
                    (new_settlement base64_decoded json_parsed derive_capability_id q payload tx)
                  ∷ [],
          ))
      → P (persist base64_decoded json_parsed derive_capability_id cfg d q payload tx r t)
  unfolding persist answer new_settlement
  persist-cases P cfg d q payload tx r t failing adding =
      insert_cases
        (λ x. P (answer base64_decoded json_parsed derive_capability_id cfg d q payload tx r t x))
        d.insert_ok d.tx_first d.now d.fresh_id _ t (λ e. failing _) λ e f. adding f

  new_settlement-IsRowOf :
      (cfg : X402Config) (d : Database) (q : Request) (payload : PaymentPayload) (tx : ℕ)
      (r : SettleResponse)
      → IsRowOf d.now q payload
          (billing base64_decoded json_parsed derive_capability_id cfg q payload d.fresh_id tx r)
          (fresh_row d.now d.fresh_id
            (new_settlement base64_decoded json_parsed derive_capability_id q payload tx))
  unfolding fresh_row new_settlement billing split_shares
  new_settlement-IsRowOf cfg d q payload tx r = record {
    id = refl;
    tx_hash = refl;
    payer = refl;
    nonce = refl;
    agent_id = refl;
    capability_id = refl;
    request_id = refl;
    splitter_capability_id = refl;
    amount = refl;
    provider_share = refl;
    hub_share = refl;
    network_share = refl;
    attested = refl;
    settled_at = refl;
    untouched = (refl, refl);
  }

  billing-IsBillOf :
      (cfg : X402Config) (d : Database) (q : Request) (payload : PaymentPayload) (tx : ℕ)
      (r : SettleResponse)
      → IsBillOf q
          (billing base64_decoded json_parsed derive_capability_id cfg q payload d.fresh_id tx r)
  unfolding billing
  billing-IsBillOf cfg d q payload tx r = record {
    amount = refl;
    provider = refl;
    hub = refl;
    network = refl;
  }

  finish-settled :
      (configured : Option X402Config) (enabled : Bool) (d : Database) (now_unix : ℕ) (q : Request)
      (before t : Table) (cfg : X402Config) (payload : PaymentPayload)
      → IsAdmitted base64_decoded json_parsed derive_capability_id configured enabled d now_unix q
          before cfg payload
      → (b : X402Billing)
      → let x =
          finish base64_decoded json_parsed derive_capability_id cfg d q payload t
            (verify_and_settle base64_decoded json_parsed derive_capability_id cfg q payload) in
        x.0 ≡ settled b → IsSettled configured enabled d now_unix q before t b x.1
  unfolding finish billing
  finish-settled configured enabled d now_unix q before t cfg payload a b =
      verify_and_settle-cases
        (λ s.
          let x = finish base64_decoded json_parsed derive_capability_id cfg d q payload t s in
          x.0 ≡ settled b → IsSettled configured enabled d now_unix q before t b x.1)
        cfg q payload (λ calls e h. absurd (cc))
        λ tx r p.
          persist-cases
            (λ y. y.0 ≡ settled b → IsSettled configured enabled d now_unix q before t b y.1) cfg d
            q payload tx r t (λ e h. absurd (cc))
            λ f h.
              subst
                (λ c. IsSettled configured enabled d now_unix q before t c (
                  t
                  ++ fresh_row d.now d.fresh_id
                      (new_settlement base64_decoded json_parsed derive_capability_id q payload tx)
                    ∷ []))
                (settled-injective h)
                (record {
                  config = cfg;
                  payload = payload;
                  response = r;
                  admitted = a;
                  paid = p;
                  unrecorded = f;
                  row =
                      fresh_row d.now d.fresh_id (
                        new_settlement base64_decoded json_parsed derive_capability_id q payload
                          tx);
                  entry = new_settlement-IsRowOf cfg d q payload tx r;
                  bill_of = billing-IsBillOf cfg d q payload tx r;
                  recorded = refl;
                })

  proceed-settled :
      (configured : Option X402Config) (enabled : Bool) (d : Database) (now_unix : ℕ) (q : Request)
      (before t : Table) (m : Result X402Outcome (X402Config × PaymentPayload))
      → preflight base64_decoded json_parsed derive_capability_id configured enabled d now_unix q
          before
        ≡ m
      → (b : X402Billing)
      → let x = proceed base64_decoded json_parsed derive_capability_id d q t m in
        x.0 ≡ settled b → IsSettled configured enabled d now_unix q before t b x.1
  unfolding proceed
  proceed-settled configured enabled d now_unix q before t (err o) e b h = absurd (
      Refuses-settled (
        subst Refuses (e ∙ ap err h) (
          preflight-Refuses base64_decoded json_parsed derive_capability_id configured enabled d
            now_unix q before)))
  proceed-settled configured enabled d now_unix q before t (ok (cfg, payload)) e b h =
      finish-settled configured enabled d now_unix q before t cfg payload
        (preflight-IsAdmitted base64_decoded json_parsed derive_capability_id configured enabled d
          now_unix q before cfg payload e)
        b h

  -- A dispatch that settles does so for an admitted request with a payment that the facilitator verified
  -- and settled, which no row of the table had; it adds one row and changes nothing else. The row has the
  -- payment, its transaction, the request, the amount as a 64-bit word and the three shares of
  -- `split_shares`, and the bill names the amount, the transaction and the same shares.
  pub dispatch_x402-settled :
      (configured : Option X402Config) (enabled : Bool) (d : Database) (now_unix : ℕ) (q : Request)
      (before t : Table) (b : X402Billing)
      → (dispatch_x402 base64_decoded json_parsed derive_capability_id configured enabled d now_unix
          q before t).0
        ≡ settled b
      → IsSettled configured enabled d now_unix q before t b
          (dispatch_x402 base64_decoded json_parsed derive_capability_id configured enabled d
            now_unix q before t).1
  unfolding dispatch_x402
  dispatch_x402-settled configured enabled d now_unix q before t b =
      proceed-settled configured enabled d now_unix q before t _ refl b
