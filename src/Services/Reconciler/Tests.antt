-- ===== src/Services/Reconciler/Tests.antt =====
-- A pass over a table of two settlements, one of which the chain bears out.
use jecp_server.Prelude.{
  ℕ, ◌≡◌, ◌↔◌, refl, true, Option, none, some, [], ◌∷◌, Text, text_eq, codes, Result, ok,
}
use jecp_server.Protocol.X402Types.{facilitator_attested, failed, X402SettlementStatus}
use jecp_server.Services.Settlements.{X402Settlement, Table}
use jecp_server.Services.Reconciler.{
  RawLog, TxReceipt, ReconcileError, confirm, usdc_transfer_topic, judge, reconcile_once, as_u128,
  parse_hex_u128,
}
use jecp_server.Services.Reconciler.Verdicts.{IsBorneOut, judge-confirm}
use jecp_server.Services.Reconciler.Pass.{Rowwise, IsPassed, reconcile_once-IsPassed}
use jecp_server.Services.Reconciler.Confirmed.{IsJustified, reconcile_once-confirmed}

abbrev usdc : Text
usdc = codes "0x833589fcd6edb6e08f4c7c32d4f71b54bda02913"

abbrev splitter : Text
splitter = codes "0x00000000000000000000000000000000000000ab"

abbrev other_log : RawLog
other_log = record { address = codes "0x01"; topics = []; data_hex = [] }

abbrev transfer_log : RawLog
transfer_log = record {
  address = usdc;
  topics =
      usdc_transfer_topic
      ∷ codes "0x01"
      ∷ codes "0x00000000000000000000000000000000000000000000000000000000000000AB"
      ∷ [];
  data_hex = codes "0x00000000000000000000000000000000000000000000000000000000000186a0";
}

abbrev row : ℕ → ℕ → X402SettlementStatus → X402Settlement
row id tx s = record {
  id = id;
  columns = record {
    tx_hash = tx;
    payer = 7;
    eip3009_nonce = id;
    agent_id = "agent";
    capability_id = "acme/translate";
    request_id = "r";
    splitter_capability_id = 17;
    amount_usdc_micro = 100000;
    provider_share_micro = 85000;
    hub_share_micro = 10000;
    network_share_micro = 5000;
  };
  status = s;
  reconcile_attempts = 0;
  last_reconcile_at = none;
  on_chain_amount_micro = none;
  on_chain_recipient = none;
  settled_at = 1000;
  chain_confirmed_at = none;
}

abbrev receipt : TxReceipt
receipt = record { status_ok = true; block_number = some 50; logs = other_log ∷ transfer_log ∷ [] }

abbrev replies : ℕ → Result ReconcileError (Option TxReceipt)
replies tx = ok (some receipt)

abbrev rows : Table
rows = row 1 91 facilitator_attested ∷ row 2 92 failed ∷ []

confirms :
    judge splitter usdc (some 53) 1100 (row 1 91 facilitator_attested) (ok (some receipt))
    ≡ confirm splitter 100000
unfolding judge text_eq parse_hex_u128
confirms = refl

abbrev reply : Result ReconcileError (Option TxReceipt)
reply = ok (some receipt)

judge-confirm_example :
    (judge splitter usdc (some 53) 1100 (row 1 91 facilitator_attested) reply
      ≡ confirm splitter 100000)
    ↔ (((x : TxReceipt) × (reply ≡ ok (some x))
          × IsBorneOut splitter usdc (some 53) (row 1 91 facilitator_attested) x)
        × (splitter ≡ splitter)
        × (100000 ≡ as_u128 100000))
judge-confirm_example =
    judge-confirm splitter usdc (some 53) 1100 (row 1 91 facilitator_attested) reply splitter 100000

reconcile_once-IsPassed_example :
    Rowwise
      (IsPassed splitter usdc replies (λ id. 1101) (some 53) 1100)
      rows
      (reconcile_once splitter usdc replies (λ id. true) (λ id. 1101) true (some 53) 1100 rows).1
reconcile_once-IsPassed_example =
    reconcile_once-IsPassed splitter usdc replies (λ id. true) (λ id. 1101) true (some 53) 1100 rows
      ((refl, tt), (tt, tt))

reconcile_once-confirmed_example :
    Rowwise
      (IsJustified splitter usdc replies (some 53))
      rows
      (reconcile_once splitter usdc replies (λ id. true) (λ id. 1101) true (some 53) 1100 rows).1
reconcile_once-confirmed_example =
    reconcile_once-confirmed splitter usdc replies (λ id. true) (λ id. 1101) true (some 53) 1100
      rows ((refl, tt), (tt, tt))
