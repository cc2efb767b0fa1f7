-- ===== src/Routes/InvokeX402.antt =====
-- src/routes/invoke_x402.rs: the x402 payment branch of POST /v1/invoke.
-- The crates `base64` and `serde_json`, the hash behind `derive_capability_id` and the facilitator's
-- client are parameters. The price comes as `amount_micro`, the u128 that the source rounds it to. A
-- manifest is what the source reads of its JSON, each field `none` where it is missing or of another type.
pub mod Split
pub mod Admitted
pub mod Settled
pub mod Replay
pub mod Signed
mod Tests
use Prim.Native.String.{String}
use text.Mathlib.Text.{◌==◌ as str_eq}
use jecp_server.Prelude.{
  ℕ, ◌+◌, ◌*◌, ◌-◌, ◌/◌, ◌%◌, ◌^◌, Bool, true, false, ◌&&◌, ◌||◌, Option, none, some, List, [], ◌∷◌,
  Text, length, any, ltb, leb, Result, ok, err, guard, ok_or, ◌>>=◌, ◌>>◌, if◌then◌else◌,
}
use jecp_server.Protocol.Decimal.{to_string}
use jecp_server.Protocol.X402Types.{
  PaymentPayload, PaymentRequirements, VerifyResponse, SettleResponse, X402Error, ReplayInfo,
  X402SettlementStatus, facilitator_attested, payment_invalid, not_accepted, settlement_reused,
  settlement_timeout, facilitator_unreachable, duplicate_payment_header, x402_disabled,
  capability_wallet_only, db_unavailable, nonce_reused, facilitator_rejected, settle_failed,
}
use jecp_server.Protocol.X402Verify.{decode_x_payment_header, validate_payment_payload}
use jecp_server.Services.Settlements.{
  NewSettlement, Table, insert, exists_by_nonce, find_existing_for_replay,
}

pub record X402Config : Type 0 where
  pub network : String
  pub usdc_asset : ℕ
  pub splitter_address : ℕ
  pub verify : PaymentPayload → PaymentRequirements → Result X402Error VerifyResponse
  pub settle : PaymentPayload → PaymentRequirements → Result X402Error SettleResponse
  pub base_url : String

pub record X402Billing : Type 0 where
  pub settlement_id : ℕ
  pub tx_hash : ℕ
  pub payer : ℕ
  pub network : String
  pub facilitator_url : String
  pub amount_micro : ℕ
  pub provider_micro : ℕ
  pub hub_micro : ℕ
  pub network_micro : ℕ
  pub status : X402SettlementStatus

pub data X402Outcome : Type 0 where
  settled : X402Billing → X402Outcome
  fallthrough_to_wallet no_x_payment : X402Outcome
  error : X402Error → X402Outcome

pub record ManifestAction : Type 0 where
  pub id : Option String
  pub payment_methods : Option (List (Option String))

-- `as_str() == Some(s)`.
unfoldable pub is_str : String → Option String → Bool
is_str s none = false
is_str s (some other) = str_eq other s

unfoldable pub find_action : String → List ManifestAction → Option ManifestAction
unfolding is_str
find_action action_id [] = none
find_action action_id (a ∷ actions) =
    let rest = find_action action_id actions in if is_str action_id a.id then some a else rest

unfoldable pub lists_x402 : Option ManifestAction → Bool
unfolding is_str
lists_x402 none = false
lists_x402 (some a) = elim a.payment_methods [
  | none ↦ false
  | some methods ↦ any (is_str "x402") methods
]

unfoldable pub action_accepts_x402 : Option (List ManifestAction) → String → Bool
unfolding find_action lists_x402
action_accepts_x402 none action_id = false
action_accepts_x402 (some actions) action_id = lists_x402 (find_action action_id actions)

-- i64 as a word of 64 bits: product, quotient towards zero, and difference.
pub mul_i64 : ℕ → ℕ → ℕ
mul_i64 w k = w * k % 2 ^ 64

pub div_i64 : ℕ → ℕ → ℕ
div_i64 w k = if ltb w (2 ^ 63) then w / k else (2 ^ 64 - (2 ^ 64 - w) / k) % 2 ^ 64

pub sub_i64 : ℕ → ℕ → ℕ
sub_i64 a b = (a + (2 ^ 64 - b % 2 ^ 64)) % 2 ^ 64

pub record Shares : Type 0 where
  pub amount : ℕ
  pub provider : ℕ
  pub hub : ℕ
  pub network : ℕ

-- The split, 85/10/5.
pub split_shares : ℕ → Shares
unfolding mul_i64 div_i64 sub_i64
split_shares amount_micro =
    let amount = amount_micro % 2 ^ 64 in
    let provider = div_i64 (mul_i64 amount 8500) 10000 in
    let hub = div_i64 (mul_i64 amount 1000) 10000 in
    record {
      amount = amount;
      provider = provider;
      hub = hub;
      network = sub_i64 (sub_i64 amount provider) hub;
    }

-- A call of the facilitator.
pub data FacilitatorCall : Type 0 where
  verify_call settle_call : FacilitatorCall

-- What the database answers, and the id and the time that it gives.
pub record Database : Type 0 where
  pub has_pool : Bool
  pub exists_ok : Bool
  pub nonce_ok : Bool
  pub tx_ok : Bool
  pub insert_ok : Bool
  pub tx_first : Bool
  pub now : ℕ
  pub fresh_id : ℕ

pub record Request : Type 0 where
  pub x_payment : List (Option Text)
  pub namespace : String
  pub capability_id : String
  pub action_id : String
  pub version : String
  pub agent_id : String
  pub request_id : String
  pub amount_micro : ℕ
  pub manifest : Option (List ManifestAction)

-- The header, where there is exactly one that is text and not empty.
pub presented : List (Option Text) → Result X402Outcome Text
presented [] = err no_x_payment
presented (none ∷ []) = err no_x_payment
presented (some [] ∷ []) = err no_x_payment
presented (some (c ∷ cs) ∷ []) = ok (c ∷ cs)
presented (v ∷ w ∷ vs) = err (error (payment_invalid duplicate_payment_header))

-- An error of a step ends the dispatch.
pub or_error : {A : Type 0} → Result X402Error A → Result X402Outcome A
or_error (ok a) = ok a
or_error (err e) = err (error e)

module _ (base64_decoded : Text → Option Text) (json_parsed : Text → Option PaymentPayload)
    (derive_capability_id : String → String → String → ℕ) where
  pub requirements : X402Config → Request → PaymentRequirements
  requirements cfg q = record {
    scheme = "exact";
    network = cfg.network;
    max_amount_required = to_string q.amount_micro;
    asset = cfg.usdc_asset;
    pay_to = cfg.splitter_address;
    splitter_capability_id = derive_capability_id q.namespace q.action_id q.version;
  }

  -- The lookup of the payer and the nonce, in the table at that time.
  pub unseen : Database → PaymentPayload → Table → Result X402Error (Unit {0})
  unseen d payload t = do
    let auth = payload.payload.authorization
    seen ← exists_by_nonce d.exists_ok auth.from auth.nonce t
    guard (if seen then false else true) (
        settlement_reused nonce_reused
          (find_existing_for_replay d.nonce_ok d.tx_ok auth.from auth.nonce none t))

  -- Everything before the first call of the facilitator.
  pub preflight :
      Option X402Config
      → Bool
      → Database
      → ℕ
      → Request
      → Table
      → Result X402Outcome (X402Config × PaymentPayload)
  unfolding presented or_error action_accepts_x402 unseen requirements
  preflight configured enabled d now_unix q t = do
    raw ← presented q.x_payment
    cfg ← or_error (ok_or configured (not_accepted x402_disabled))
    or_error (guard enabled (not_accepted x402_disabled))
    or_error
        (guard (action_accepts_x402 q.manifest q.action_id) (not_accepted capability_wallet_only))
    payload ← or_error (decode_x_payment_header base64_decoded json_parsed raw)
    or_error (validate_payment_payload payload (requirements cfg q) now_unix)
    or_error (guard d.has_pool (payment_invalid db_unavailable))
    or_error (unseen d payload t)
    ok (cfg, payload)

  pub settle_step :
      X402Config
      → Request
      → PaymentPayload
      → List FacilitatorCall × Result X402Error (ℕ × SettleResponse)
  unfolding requirements
  settle_step cfg q payload = elim (cfg.settle payload (requirements cfg q)) [
    | err e ↦ (verify_call ∷ settle_call ∷ [], err e)
    | ok r ↦
        if r.success
        then elim r.tx_hash [
          | none ↦ (verify_call ∷ settle_call ∷ [], err (payment_invalid settle_failed))
          | some tx ↦ (verify_call ∷ settle_call ∷ [], ok (tx, r))
        ]
        else (verify_call ∷ settle_call ∷ [], err (payment_invalid settle_failed))
  ]

  pub verify_and_settle :
      X402Config
      → Request
      → PaymentPayload
      → List FacilitatorCall × Result X402Error (ℕ × SettleResponse)
  unfolding requirements settle_step
  verify_and_settle cfg q payload =
      let settled_now = settle_step cfg q payload in
      elim (cfg.verify payload (requirements cfg q)) [
        | err e ↦ (verify_call ∷ [], err e)
        | ok v ↦
            if v.is_valid
            then settled_now
            else (verify_call ∷ [], err (payment_invalid facilitator_rejected))
      ]

  pub new_settlement : Request → PaymentPayload → ℕ → NewSettlement
  unfolding split_shares
  new_settlement q payload tx = record {
    tx_hash = tx;
    payer = payload.payload.authorization.from;
    eip3009_nonce = payload.payload.authorization.nonce;
    agent_id = q.agent_id;
    capability_id = q.capability_id;
    request_id = q.request_id;
    splitter_capability_id = derive_capability_id q.namespace q.action_id q.version;
    amount_usdc_micro = (split_shares q.amount_micro).amount;
    provider_share_micro = (split_shares q.amount_micro).provider;
    hub_share_micro = (split_shares q.amount_micro).hub;
    network_share_micro = (split_shares q.amount_micro).network;
  }

  -- A duplicate that the insertion finds is reported with the row it clashes with.
  pub enrich : Option ReplayInfo → X402Error → X402Error
  enrich info (settlement_reused s other) = settlement_reused s info
  enrich info (payment_invalid s) = payment_invalid s
  enrich info (not_accepted s) = not_accepted s
  enrich info (settlement_timeout s ms) = settlement_timeout s ms
  enrich info (facilitator_unreachable s) = facilitator_unreachable s

  pub unwrap_or {ℓ} : {A : Type ℓ} → A → Option A → A
  unwrap_or a none = a
  unwrap_or a (some b) = b

  pub billing : X402Config → Request → PaymentPayload → ℕ → ℕ → SettleResponse → X402Billing
  unfolding split_shares unwrap_or
  billing cfg q payload id tx r = record {
    settlement_id = id;
    tx_hash = tx;
    payer = unwrap_or payload.payload.authorization.from r.payer;
    network = unwrap_or cfg.network r.network_id;
    facilitator_url = cfg.base_url;
    amount_micro = q.amount_micro;
    provider_micro = (split_shares q.amount_micro).provider;
    hub_micro = (split_shares q.amount_micro).hub;
    network_micro = (split_shares q.amount_micro).network;
    status = facilitator_attested;
  }

  -- The answer to what the insertion into `t` gives.
  pub answer :
      X402Config
      → Database
      → Request
      → PaymentPayload
      → ℕ
      → SettleResponse
      → Table
      → Result X402Error ℕ × Table
      → X402Outcome × Table
  unfolding enrich billing
  answer cfg d q payload tx r t (ok id, u) = (settled (billing cfg q payload id tx r), u)
  answer cfg d q payload tx r t (err e, u) =
      let auth = payload.payload.authorization in
      (
        error (
            enrich (find_existing_for_replay d.nonce_ok d.tx_ok auth.from auth.nonce (some tx) t)
              e),
        u,
      )

  pub persist :
      X402Config
      → Database
      → Request
      → PaymentPayload
      → ℕ
      → SettleResponse
      → Table
      → X402Outcome × Table
  unfolding new_settlement answer
  persist cfg d q payload tx r t =
      answer cfg d q payload tx r t
        (insert d.insert_ok d.tx_first d.now d.fresh_id (new_settlement q payload tx) t)

  pub finish :
      X402Config
      → Database
      → Request
      → PaymentPayload
      → Table
      → List FacilitatorCall × Result X402Error (ℕ × SettleResponse)
      → X402Outcome × Table × List FacilitatorCall
  unfolding persist
  finish cfg d q payload t (calls, err e) = (error e, t, calls)
  finish cfg d q payload t (calls, ok (tx, r)) =
      let p = persist cfg d q payload tx r t in (p.0, p.1, calls)

  pub proceed :
      Database
      → Request
      → Table
      → Result X402Outcome (X402Config × PaymentPayload)
      → X402Outcome × Table × List FacilitatorCall
  unfolding verify_and_settle finish
  proceed d q t (err o) = (o, t, [])
  proceed d q t (ok (cfg, payload)) = finish cfg d q payload t (verify_and_settle cfg q payload)

  -- `before` is the table at the lookup, and `t` at the insertion: other requests may come between.
  pub dispatch_x402 :
      Option X402Config
      → Bool
      → Database
      → ℕ
      → Request
      → Table
      → Table
      → X402Outcome × Table × List FacilitatorCall
  unfolding preflight proceed
  dispatch_x402 configured enabled d now_unix q before t =
      proceed d q t (preflight configured enabled d now_unix q before)
