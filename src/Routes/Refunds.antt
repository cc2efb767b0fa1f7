-- ===== src/Routes/Refunds.antt =====
-- src/routes/refunds.rs: the request of a refund, and the provider's decision on it.
-- Ids and texts that the source only compares are numbers. Times are microseconds, as the database keeps
-- them. `bcrypt` is a parameter, false where it fails; what the database answers is given. A handler
-- gets the table that its queries read, `before`, and the table that its statement meets, `t`: other
-- requests may come between. `process_refund` is a function of the database; its call is logged.
pub mod Accepted
pub mod Limits
pub mod Rewritten
pub mod Decisions
mod Tests
use Prim.Native.String.{String}
use text.Mathlib.Text.{◌==◌ as str_eq}
use jecp_server.Prelude.{
  ℕ, ◌+◌, ◌*◌, Bool, true, false, ◌&&◌, not, Option, none, some, List, [], ◌∷◌, ◌++◌, map, Text,
  length, any, retain, ltb, leb, ◌==◌, Result, ok, err, guard, ok_or, ◌>>=◌, ◌>>◌, if◌then◌else◌,
}

abbrev pub day : ℕ
day = 86_400_000_000

abbrev pub refund_window_days : ℕ
refund_window_days = 30

abbrev pub rate_limit_per_day : ℕ
rate_limit_per_day = 5

abbrev pub pair_limit : ℕ
pair_limit = 3

pub record Refund : Type 0 where
  pub id : ℕ
  pub transaction_id : ℕ
  pub agent_id : ℕ
  pub provider_id : ℕ
  pub amount_usdc : ℕ
  pub status : String
  pub requested_at : ℕ
  pub resolved_at : Option ℕ

-- `capability` is the provider that the capability's row names, where both are there.
pub record Transaction : Type 0 where
  pub agent_id : ℕ
  pub kind : String
  pub amount_usdc : ℕ
  pub created_at : ℕ
  pub refunded_at : Option ℕ
  pub provider_id : Option ℕ

pub record Refusal : Type 0 where
  pub status : ℕ
  pub code : String

abbrev pub refuse : ℕ → String → Refusal
refuse status code = record { status = status; code = code }

abbrev pub Table : Type 0
Table = List Refund

-- What a request for a refund reads; a failed count is taken for 0.
pub record RequestReadings : Type 0 where
  pub is_json : Bool
  pub agent_creds : Option (ℕ × Text)
  pub body : Option ℕ
  pub has_pool : Bool
  pub api_key_hash : Option Text
  pub transaction : Option Transaction
  pub agent_count_ok : Bool
  pub pair_count_ok : Bool
  pub insert_ok : Bool
  pub now : ℕ
  pub fresh_id : ℕ

-- Requested in the last 24 hours.
unfoldable pub is_recent : ℕ → Refund → Bool
is_recent now r = ltb now (r.requested_at + day)

unfoldable pub agent_count : ℕ → ℕ → Table → ℕ
unfolding is_recent
agent_count now agent t = length (retain (λ r. r.agent_id == agent && is_recent now r) t)

unfoldable pub pair_count : ℕ → ℕ → ℕ → Table → ℕ
unfolding is_recent
pair_count now agent provider t =
    length (retain (λ r. r.agent_id == agent && (r.provider_id == provider && is_recent now r)) t)

unfoldable pub or_zero : Bool → ℕ → ℕ
or_zero true n = n
or_zero false n = 0

unfoldable pub is_some : {A : Type 0} → Option A → Bool
is_some none = false
is_some (some a) = true

-- The row that is inserted.
unfoldable pub new_refund : RequestReadings → ℕ → ℕ → ℕ → Transaction → Refund
new_refund q agent provider transaction_id tx = record {
  id = q.fresh_id;
  transaction_id = transaction_id;
  agent_id = agent;
  provider_id = provider;
  amount_usdc = tx.amount_usdc;
  status = "requested";
  requested_at = q.now;
  resolved_at = none;
}

-- `one_refund_per_tx` is the unique constraint on the transaction.
unfoldable pub insert : Bool → Refund → Table → Result Refusal Refund × Table
insert insert_ok row t =
    if any (λ r. r.transaction_id == row.transaction_id) t
    then (err (refuse 409 "DUPLICATE_REFUND"), t)
    else if insert_ok
    then (ok row, row ∷ t)
    else (err (refuse 500 "DB_ERROR"), t)

module _ (bcrypt_verify : Text → Text → Bool) where
  -- Everything before the insertion: the row to insert.
  unfoldable pub check_refund : RequestReadings → Table → Result Refusal Refund
  unfolding agent_count pair_count or_zero is_some new_refund
  check_refund q before = do
    guard q.is_json (refuse 415 "UNSUPPORTED_MEDIA_TYPE")
    creds ← ok_or q.agent_creds (refuse 401 "AUTH_REQUIRED")
    transaction_id ← ok_or q.body (refuse 400 "INVALID_BODY")
    guard q.has_pool (refuse 500 "DB_UNAVAILABLE")
    hash ← ok_or q.api_key_hash (refuse 401 "INVALID_AGENT")
    guard (bcrypt_verify creds.1 hash) (refuse 401 "INVALID_AGENT")
    tx ← ok_or q.transaction (refuse 404 "TRANSACTION_NOT_FOUND")
    guard (tx.agent_id == creds.0) (refuse 403 "FORBIDDEN")
    guard (str_eq tx.kind "charge") (refuse 400 "INVALID_TRANSACTION")
    guard (not (is_some tx.refunded_at)) (refuse 409 "ALREADY_REFUNDED")
    guard (not (ltb (tx.created_at + refund_window_days * day) q.now))
        (refuse 400 "REFUND_WINDOW_EXPIRED")
    guard
        (not (leb rate_limit_per_day (or_zero q.agent_count_ok (agent_count q.now creds.0 before))))
        (refuse 429 "RATE_LIMITED")
    provider ← ok_or tx.provider_id (refuse 400 "PROVIDER_NOT_RESOLVABLE")
    guard
        (not (leb pair_limit (or_zero q.pair_count_ok (pair_count q.now creds.0 provider before))))
        (refuse 429 "REFUND_RATE_LIMITED")
    ok (new_refund q creds.0 provider transaction_id tx)

  unfoldable pub attempt : Bool → Table → Result Refusal Refund → Result Refusal Refund × Table
  unfolding insert
  attempt insert_ok t (err e) = (err e, t)
  attempt insert_ok t (ok row) = insert insert_ok row t

  unfoldable pub request_refund : RequestReadings → Table → Table → Result Refusal Refund × Table
  unfolding check_refund attempt
  request_refund q before t = attempt q.insert_ok t (check_refund q before)

-- What a decision reads: the provider's token, and the hash of each provider.
pub record DecisionReadings : Type 0 where
  pub has_pool : Bool
  pub token : Option Text
  pub hash_of : ℕ → Option Text
  pub update_ok : Bool
  pub process_ok : Bool
  pub now : ℕ

-- What a decision does besides its row: the call of `process_refund`, and the events.
pub data Effect : Type 0 where
  processed : ℕ → Effect
  notified : ℕ → String → Effect

pub record Store : Type 0 where
  pub refunds : Table
  pub log : List Effect

unfoldable pub find_refund : ℕ → Table → Option Refund
find_refund id [] = none
find_refund id (r ∷ t) = let rest = find_refund id t in if r.id == id then some r else rest

unfoldable pub update_refund : ℕ → (Refund → Refund) → Table → Table
update_refund id f = map (λ r. if r.id == id then f r else r)

unfoldable pub set_approved : Refund → Refund
set_approved r = record r { status = "approved" }

unfoldable pub set_denied : ℕ → Refund → Refund
set_denied now r = record r { status = "denied"; resolved_at = some now }

-- A failed UPDATE is ignored.
unfoldable pub if_updated : Bool → Table → Table → Table
if_updated true changed t = changed
if_updated false changed t = t

module _ (bcrypt_verify : Text → Text → Bool) where
  unfoldable pub verify_provider_token : Text → Option Text → Bool
  verify_provider_token token none = false
  verify_provider_token token (some hash) = bcrypt_verify token hash

  -- The checks that both decisions share, on the table that they read; `parsed` is the body of a denial.
  unfoldable pub check_decision : DecisionReadings → Bool → ℕ → Table → Result Refusal (Unit {0})
  unfolding find_refund verify_provider_token
  check_decision d parsed id before = do
    guard d.has_pool (refuse 500 "DB_UNAVAILABLE")
    token ← ok_or d.token (refuse 401 "AUTH_REQUIRED")
    guard parsed (refuse 400 "INVALID_BODY")
    r ← ok_or (find_refund id before) (refuse 404 "REFUND_NOT_FOUND")
    guard (verify_provider_token token (d.hash_of r.provider_id)) (refuse 403 "FORBIDDEN")
    guard (str_eq r.status "requested") (refuse 409 "INVALID_STATE")

  -- The UPDATE, which has no condition on the status, and what follows it.
  unfoldable pub apply_approval : DecisionReadings → ℕ → Store → Result Refusal (Unit {0}) × Store
  unfolding update_refund if_updated set_approved
  apply_approval d id s =
      let refunds = if_updated d.update_ok (update_refund id set_approved s.refunds) s.refunds in
      if d.process_ok
      then (
        ok tt,
        record { refunds = refunds; log = s.log ++ (processed id ∷ notified id "approved" ∷ []) },
      )
      else (
        err (refuse 500 "PROCESS_FAILED"),
        record { refunds = refunds; log = s.log ++ processed id ∷ [] },
      )

  unfoldable pub apply_denial : DecisionReadings → ℕ → Store → Result Refusal (Unit {0}) × Store
  unfolding update_refund if_updated set_denied
  apply_denial d id s = (
    ok tt,
    record {
      refunds = if_updated d.update_ok (update_refund id (set_denied d.now) s.refunds) s.refunds;
      log = s.log ++ notified id "denied" ∷ [];
    },
  )

  unfoldable pub decide :
      Result Refusal (Unit {0})
      → Result Refusal (Unit {0}) × Store
      → Store
      → Result Refusal (Unit {0}) × Store
  decide (err e) done s = (err e, s)
  decide (ok u) done s = done

  unfoldable pub approve_refund :
      DecisionReadings → ℕ → Table → Store → Result Refusal (Unit {0}) × Store
  unfolding check_decision apply_approval decide
  approve_refund d id before s = decide (check_decision d true id before) (apply_approval d id s) s

  unfoldable pub deny_refund :
      DecisionReadings → Bool → ℕ → Table → Store → Result Refusal (Unit {0}) × Store
  unfolding check_decision apply_denial decide
  deny_refund d parsed id before s =
      decide (check_decision d parsed id before) (apply_denial d id s) s
