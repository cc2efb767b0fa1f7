-- ===== src/Services/Settlements.antt =====
-- src/services/x402_settlements.rs: the table of x402 settlements and its statements.
-- A statement is a function on the list of rows, newest last. The two unique constraints are those that
-- the source names, on the transaction hash and on the payer with the nonce. Times are in seconds, and
-- each statement gets the database's NOW(). Money columns are 64-bit words.
pub mod History
pub mod Status
mod Tests
use Prim.Native.String.{String}
use text.Mathlib.Text.{◌==◌ as str_eq}
use jecp_server.Prelude.{
  ℕ, ◌+◌, Bool, true, false, ◌&&◌, Option, none, some, List, [], ◌∷◌, ◌++◌, map, Text, ltb, ◌==◌,
  any, take, retain, Result, ok, err, if◌then◌else◌,
}
use jecp_server.Protocol.X402Types.{
  X402SettlementStatus, facilitator_attested, chain_confirmed, mismatched, failed, orphaned, as_str,
  X402Error, payment_invalid, settlement_reused, db_insert, db_lookup, db_list, nonce_reused,
  tx_hash_seen, ReplayInfo,
}

pub record NewSettlement : Type 0 where
  pub tx_hash : ℕ
  pub payer : ℕ
  pub eip3009_nonce : ℕ
  pub agent_id : String
  pub capability_id : String
  pub request_id : String
  pub splitter_capability_id : ℕ
  pub amount_usdc_micro : ℕ
  pub provider_share_micro : ℕ
  pub hub_share_micro : ℕ
  pub network_share_micro : ℕ

pub record X402Settlement : Type 0 where
  pub id : ℕ
  pub columns : NewSettlement
  pub open columns use *
  pub status : X402SettlementStatus
  pub reconcile_attempts : ℕ
  pub last_reconcile_at : Option ℕ
  pub on_chain_amount_micro : Option ℕ
  pub on_chain_recipient : Option Text
  pub settled_at : ℕ
  pub chain_confirmed_at : Option ℕ

abbrev pub Table : Type 0
Table = List X402Settlement

-- The constraint that the database reports on a duplicate.
pub data Constraint : Type 0 where
  tx_hash_key payer_nonce_key : Constraint

pub same_payment : ℕ → ℕ → X402Settlement → Bool
same_payment payer nonce r = r.payer == payer && r.eip3009_nonce == nonce

pub same_tx : ℕ → X402Settlement → Bool
same_tx tx_hash r = r.tx_hash == tx_hash

unfoldable pub fresh_row : ℕ → ℕ → NewSettlement → X402Settlement
fresh_row now id s = record {
  id = id;
  columns = s;
  status = facilitator_attested;
  reconcile_attempts = 0;
  last_reconcile_at = none;
  on_chain_amount_micro = none;
  on_chain_recipient = none;
  settled_at = now;
  chain_confirmed_at = none;
}

pub map_insert_error : Constraint → X402Error
map_insert_error tx_hash_key = settlement_reused tx_hash_seen none
map_insert_error payer_nonce_key = settlement_reused nonce_reused none

-- Which duplicate is reported where both are there is the database's choice, `tx_first`.
pub violated : Bool → Bool → Bool → Option Constraint
violated tx_first false false = none
violated tx_first true false = some tx_hash_key
violated tx_first false true = some payer_nonce_key
violated tx_first true true = some (if tx_first then tx_hash_key else payer_nonce_key)

-- `id` is the UUID that the database draws; `query_ok` says that the database answers.
unfoldable pub insert : Bool → Bool → ℕ → ℕ → NewSettlement → Table → Result X402Error ℕ × Table
unfolding same_payment same_tx fresh_row map_insert_error violated
insert query_ok tx_first now id s t =
    if query_ok
    then elim (violated tx_first (any (same_tx s.tx_hash) t)
        (any (same_payment s.payer s.eip3009_nonce) t)) [
          | some c ↦ (err (map_insert_error c), t)
          | none ↦ (ok id, t ++ fresh_row now id s ∷ [])
        ]
    else (err (payment_invalid db_insert), t)

unfoldable pub exists_by_nonce : Bool → ℕ → ℕ → Table → Result X402Error Bool
unfolding same_payment
exists_by_nonce query_ok payer nonce t =
    if query_ok then ok (any (same_payment payer nonce) t) else err (payment_invalid db_lookup)

pub first_row : (X402Settlement → Bool) → Table → Option ReplayInfo
first_row p [] = none
first_row p (r ∷ t) =
    if p r
    then some (record {
      tx_hash = r.tx_hash;
      original_request_id = r.request_id;
      original_settled_at = r.settled_at;
    })
    else first_row p t

pub fall_back : Option ReplayInfo → Option ReplayInfo → Option ReplayInfo
fall_back none other = other
fall_back (some i) other = some i

-- By payer and nonce, then by transaction hash where one is given; a failed query finds nothing.
unfoldable pub find_existing_for_replay : Bool → Bool → ℕ → ℕ → Option ℕ → Table → Option ReplayInfo
unfolding same_payment same_tx first_row fall_back
find_existing_for_replay nonce_ok tx_ok payer nonce tx_hash t =
    fall_back (if nonce_ok then first_row (same_payment payer nonce) t else none)
      (elim tx_hash [ none ↦ none | some tx ↦ if tx_ok then first_row (same_tx tx) t else none ])

unfoldable pub is_attested : X402SettlementStatus → Bool
is_attested facilitator_attested = true
is_attested _ = false

-- ORDER BY settled_at ASC.
unfoldable pub insert_by_age : X402Settlement → Table → Table
insert_by_age r [] = r ∷ []
insert_by_age r (s ∷ t) = if ltb s.settled_at r.settled_at then s ∷ insert_by_age r t else r ∷ s ∷ t

unfoldable pub sort_by_age : Table → Table
unfolding insert_by_age
sort_by_age [] = []
sort_by_age (r ∷ t) = insert_by_age r (sort_by_age t)

unfoldable pub is_due : ℕ → ℕ → X402Settlement → Bool
unfolding is_attested
is_due now older_than r = is_attested r.status && ltb (r.settled_at + older_than) now

unfoldable pub attested_older_than : ℕ → ℕ → ℕ → Table → Table
unfolding is_due sort_by_age
attested_older_than now older_than limit t =
    take limit (sort_by_age (retain (is_due now older_than) t))

pub list_facilitator_attested_older_than : Bool → ℕ → ℕ → ℕ → Table → Result X402Error Table
unfolding attested_older_than
list_facilitator_attested_older_than query_ok now older_than limit t =
    if query_ok
    then ok (attested_older_than now older_than limit t)
    else err (payment_invalid db_list)

-- UPDATE … WHERE id = …
unfoldable pub update_where :
    (X402Settlement → Bool) → (X402Settlement → X402Settlement) → Table → Table
update_where p f = map (λ r. if p r then f r else r)

-- What every transition sets.
unfoldable pub touch : ℕ → X402Settlement → X402Settlement
touch now r = record r {
  last_reconcile_at = some now;
  reconcile_attempts = r.reconcile_attempts + 1;
}

unfoldable pub set_status : ℕ → X402SettlementStatus → X402Settlement → X402Settlement
unfolding touch
set_status now s r = record (touch now r) { status = s }

pub mark_chain_confirmed : ℕ → ℕ → Table → Table
unfolding update_where set_status is_attested
mark_chain_confirmed now id =
    update_where (λ r. r.id == id && is_attested r.status)
      (λ r. record (set_status now chain_confirmed r) { chain_confirmed_at = some now })

pub mark_failed : ℕ → ℕ → Table → Table
unfolding update_where set_status
mark_failed now id = update_where (λ r. r.id == id) (set_status now failed)

pub mark_orphaned : ℕ → ℕ → Table → Table
unfolding update_where set_status
mark_orphaned now id = update_where (λ r. r.id == id) (set_status now orphaned)

pub mark_mismatched : ℕ → ℕ → ℕ → Text → Table → Table
unfolding update_where set_status
mark_mismatched now id amount recipient =
    update_where (λ r. r.id == id)
      (λ r. record (set_status now mismatched r) {
        on_chain_amount_micro = some amount;
        on_chain_recipient = some recipient;
      })

-- An unknown text is taken for the first state.
pub parse_status : String → X402SettlementStatus
parse_status s =
    if str_eq s "facilitator_attested"
    then facilitator_attested
    else if str_eq s "chain_confirmed"
    then chain_confirmed
    else if str_eq s "mismatched"
    then mismatched
    else if str_eq s "failed"
    then failed
    else if str_eq s "orphaned"
    then orphaned
    else facilitator_attested
