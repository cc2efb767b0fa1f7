-- ===== src/Services/Reconciler.antt =====
-- src/services/x402_reconciler.rs: one pass over the settlements that the facilitator attested.
-- The node's replies are parameters: the head of the chain, and for each transaction an error, no
-- receipt, or a receipt. `update_ok` and `nows` say, for the row of an id, whether its UPDATE succeeds and
-- which NOW() it reads. A text is its bytes.
pub mod Transfer
pub mod Rows
pub mod Pass
pub mod Confirmed
pub mod Verdicts
mod Tests
use jecp_server.Prelude.{
  ℕ, ◌+◌, ◌*◌, ◌-◌, ◌^◌, ◌%◌, Bool, true, false, ◌&&◌, ◌||◌, Option, none, some, List, [], ◌∷◌,
  ◌++◌, map, Text, codes, text_eq, ltb, leb, ◌==◌, length, drop, Result, ok, err, if◌then◌else◌,
}
use jecp_server.Auth.ReplayCache.{to_ascii_lowercase}
use jecp_server.Protocol.X402Types.{failed, chain_confirmed, mismatched, orphaned}
use jecp_server.Services.Settlements.{
  X402Settlement, Table, attested_older_than, update_where, touch, set_status,
}

abbrev pub orphan_threshold_secs : ℕ
orphan_threshold_secs = 600

abbrev pub max_reconcile_attempts : ℕ
max_reconcile_attempts = 30

abbrev pub batch_limit : ℕ
batch_limit = 100

abbrev pub min_confirmations : ℕ
min_confirmations = 3

abbrev pub usdc_transfer_topic : Text
usdc_transfer_topic = codes "0xddf252ad1be2c89b69c2b068fc378daa952ba7f163c4a11628f55a4df523b3ef"

pub record ReconcileStats : Type 0 where
  pub checked : ℕ
  pub confirmed : ℕ
  pub mismatched : ℕ
  pub failed : ℕ
  pub orphaned : ℕ

-- `ReconcileStats::default`.
pub no_stats : ReconcileStats
no_stats = record { checked = 0; confirmed = 0; mismatched = 0; failed = 0; orphaned = 0 }

pub data ReconcileError : Type 0 where
  db rpc : ReconcileError

pub record RawLog : Type 0 where
  pub address : Text
  pub topics : List Text
  pub data_hex : Text

pub record TxReceipt : Type 0 where
  pub status_ok : Bool
  pub block_number : Option ℕ
  pub logs : List RawLog

-- `trim_start_matches("0x")`, which takes every leading copy.
unfoldable pub strip_0x : Text → Text
strip_0x [] = []
strip_0x (c ∷ []) = c ∷ []
strip_0x (c ∷ d ∷ cs) = let rest = strip_0x cs in if c == 48 && d == 120 then rest else c ∷ d ∷ cs

unfoldable pub hex_digit : ℕ → Option ℕ
hex_digit c =
    if leb 48 c && leb c 57
    then some (c - 48)
    else if leb 97 c && leb c 102
    then some (c - 87)
    else if leb 65 c && leb c 70
    then some (c - 55)
    else none

-- `from_str_radix(s, 16)` for a word below `modulus`, from the digits read so far.
pub push_digit : ℕ → ℕ → Option ℕ → Option ℕ
push_digit modulus acc none = none
push_digit modulus acc (some d) = if ltb (acc * 16 + d) modulus then some (acc * 16 + d) else none

unfoldable pub hex_digits : ℕ → Option ℕ → Text → Option ℕ
unfolding hex_digit push_digit
hex_digits modulus none cs = none
hex_digits modulus (some acc) [] = some acc
hex_digits modulus (some acc) (c ∷ cs) =
    hex_digits modulus (push_digit modulus acc (hex_digit c)) cs

-- A `+` alone has no digits.
unfoldable pub from_str_radix_16 : ℕ → Text → Option ℕ
unfolding hex_digits
from_str_radix_16 modulus [] = none
from_str_radix_16 modulus (c ∷ []) = hex_digits modulus (some 0) (c ∷ [])
from_str_radix_16 modulus (c ∷ d ∷ cs) =
    if c == 43
    then hex_digits modulus (some 0) (d ∷ cs)
    else hex_digits modulus (some 0) (c ∷ d ∷ cs)

unfoldable pub parse_hex_u64 : Text → Option ℕ
unfolding from_str_radix_16 strip_0x
parse_hex_u64 s = from_str_radix_16 (2 ^ 64) (strip_0x s)

unfoldable pub parse_hex_u128 : Text → Option ℕ
unfolding from_str_radix_16 strip_0x
parse_hex_u128 s = from_str_radix_16 (2 ^ 128) (strip_0x s)

pub abi_address_from_topic : Text → Option Text
unfolding strip_0x
abi_address_from_topic topic =
    let s = strip_0x topic in
    if length s == 64 then some (codes "0x" ++ to_ascii_lowercase (drop 24 s)) else none

pub is_usdc_transfer : Text → RawLog → Bool
is_usdc_transfer usdc_asset log =
    text_eq log.address usdc_asset
    && elim log.topics [ [] ↦ false | topic ∷ _ ↦ text_eq topic usdc_transfer_topic ]

pub pair_some : Option Text → Option ℕ → Option (Text × ℕ)
pair_some (some to) (some value) = some (to, value)
pair_some none value = none
pair_some (some to) none = none

-- The recipient and the value of a Transfer log.
pub observe : RawLog → Option (Text × ℕ)
unfolding abi_address_from_topic pair_some
observe log = elim log.topics [
  | _ ∷ _ ∷ to_topic ∷ _ ↦ pair_some (abi_address_from_topic to_topic) (parse_hex_u128 log.data_hex)
  | _ ↦ none
]

-- Of `receipt.logs`.
pub extract_transfer_observation : Text → List RawLog → Option (Text × ℕ)
unfolding is_usdc_transfer observe
extract_transfer_observation usdc_asset [] = none
extract_transfer_observation usdc_asset (log ∷ logs) =
    let rest = extract_transfer_observation usdc_asset logs in
    if is_usdc_transfer usdc_asset log then observe log else rest

-- `as u128` of an i64, which extends the sign.
pub as_u128 : ℕ → ℕ
as_u128 w = if ltb w (2 ^ 63) then w else w + (2 ^ 128 - 2 ^ 64)

-- `as i64` of a u128.
pub as_i64 : ℕ → ℕ
as_i64 v = v % 2 ^ 64

-- What the pass does with a row.
pub data Verdict : Type 0 where
  leave defer fail orphan : Verdict
  confirm : Text → ℕ → Verdict
  mismatch : Option (Text × ℕ) → Verdict

pub too_shallow : Option ℕ → Option ℕ → Bool
too_shallow (some head) (some block_no) =
    ltb head block_no || ltb (head - block_no) min_confirmations
too_shallow none block_no = false
too_shallow (some head) none = false

pub compare_claim : Text → ℕ → Option (Text × ℕ) → Verdict
unfolding as_u128
compare_claim splitter claimed none = mismatch none
compare_claim splitter claimed (some (to, value)) =
    if value == as_u128 claimed && text_eq to splitter
    then confirm to value
    else mismatch (some (to, value))

pub is_lost : ℕ → X402Settlement → Bool
is_lost now r =
    leb max_reconcile_attempts (r.reconcile_attempts + 1)
    || ltb orphan_threshold_secs (now - r.settled_at)

module _ (splitter usdc_asset : Text) (head : Option ℕ) where
  -- `now` is the NOW() of the query that selected the row.
  pub judge : ℕ → X402Settlement → Result ReconcileError (Option TxReceipt) → Verdict
  unfolding too_shallow compare_claim extract_transfer_observation is_lost
  judge now r (ok (some receipt)) =
      if receipt.status_ok
      then if too_shallow head receipt.block_number
        then defer
        else compare_claim splitter r.amount_usdc_micro
            (extract_transfer_observation usdc_asset receipt.logs)
      else fail
  judge now r (ok none) = if is_lost now r then orphan else defer
  judge now r (err e) = leave

-- The SET clause of the UPDATE.
pub record_verdict : ℕ → Verdict → X402Settlement → X402Settlement
unfolding touch set_status as_i64
record_verdict now leave r = r
record_verdict now defer r = touch now r
record_verdict now fail r = set_status now failed r
record_verdict now orphan r = set_status now orphaned r
record_verdict now (confirm to value) r = record (set_status now chain_confirmed r) {
  chain_confirmed_at = some now;
  on_chain_amount_micro = some (as_i64 value);
  on_chain_recipient = some to;
}
record_verdict now (mismatch none) r = set_status now mismatched r
record_verdict now (mismatch (some (to, value))) r = record (set_status now mismatched r) {
  on_chain_amount_micro = some (as_i64 value);
  on_chain_recipient = some to;
}

pub count : Verdict → ReconcileStats → ReconcileStats
count leave s = record s { checked = s.checked + 1 }
count defer s = record s { checked = s.checked + 1 }
count fail s = record s { checked = s.checked + 1; failed = s.failed + 1 }
count orphan s = record s { checked = s.checked + 1; orphaned = s.orphaned + 1 }
count (confirm to value) s = record s { checked = s.checked + 1; confirmed = s.confirmed + 1 }
count (mismatch o) s = record s { checked = s.checked + 1; mismatched = s.mismatched + 1 }

pub needs_update : Verdict → Bool
needs_update leave = false
needs_update _ = true

module _ (splitter usdc_asset : Text) (receipts : ℕ → Result ReconcileError (Option TxReceipt))
    (update_ok : ℕ → Bool) (nows : ℕ → ℕ) where
  -- The rows that are left, with the counts so far. An UPDATE that fails ends the pass.
  pub reconcile_rows :
      Option ℕ
      → ℕ
      → List X402Settlement
      → ReconcileStats
      → Table
      → Result ReconcileError ReconcileStats × Table
  unfolding judge record_verdict count needs_update update_where
  reconcile_rows head now [] stats t = (ok stats, t)
  reconcile_rows head now (r ∷ rows) stats t =
      let v = judge splitter usdc_asset head now r (receipts r.tx_hash) in
      let written = update_where (λ s. s.id == r.id) (record_verdict (nows r.id) v) t in
      let unwritten = reconcile_rows head now rows (count v stats) t in
      let rest = reconcile_rows head now rows (count v stats) written in
      if needs_update v then if update_ok r.id then rest else (err db, t) else unwritten

  pub reconcile_once : Bool → Option ℕ → ℕ → Table → Result ReconcileError ReconcileStats × Table
  unfolding reconcile_rows attested_older_than no_stats
  reconcile_once query_ok head now t =
      if query_ok
      then reconcile_rows head now (attested_older_than now 60 batch_limit t) no_stats t
      else (err db, t)
