-- ===== src/Services/Reconciler/Confirmed.antt =====
-- Which rows a pass confirms, and which it leaves alone.
use jecp_server.Prelude.{
  ◌≢◌, ℕ, ◌≡◌, ◌⊎◌, inl, inr, refl, sym, ap, ◌∙◌, Bool, true, Option, none, some, Text, arith,
  Result, ok,
}
use jecp_server.Protocol.X402Types.{
  X402SettlementStatus, facilitator_attested, chain_confirmed, failed, mismatched, orphaned,
}
use jecp_server.Services.Settlements.{X402Settlement, Table, is_due, is_attested, touch, set_status}
use jecp_server.Services.Reconciler.{
  TxReceipt, ReconcileError, Verdict, leave, defer, fail, orphan, confirm, mismatch, judge,
  record_verdict, reconcile_once,
}
use jecp_server.Services.Reconciler.Rows.{DistinctIds}
use jecp_server.Services.Reconciler.Verdicts.{IsBorneOut, judge-confirm}
use jecp_server.Services.Reconciler.Pass.{Rowwise, Rowwise-map, IsPassed, reconcile_once-IsPassed}

unconfirmed : (s : X402SettlementStatus) → is_attested s ≡ true → s ≡ chain_confirmed → ⊥
unfolding is_attested
unconfirmed facilitator_attested a e = cc
unconfirmed chain_confirmed a e = ground arith
unconfirmed mismatched a e = ground arith
unconfirmed failed a e = ground arith
unconfirmed orphaned a e = ground arith

confirming_verdict :
    (at : ℕ) (v : Verdict) (r : X402Settlement)
    → is_attested r.status ≡ true
    → (record_verdict at v r).status ≡ chain_confirmed
    → (to : Text) × (value : ℕ) × (v ≡ confirm to value)
unfolding record_verdict touch set_status
confirming_verdict at leave r a e = absurd (unconfirmed r.status a e)
confirming_verdict at defer r a e = absurd (unconfirmed r.status a e)
confirming_verdict at fail r a e = absurd (cc)
confirming_verdict at orphan r a e = absurd (cc)
confirming_verdict at (confirm to value) r a e = (to, value, refl)
confirming_verdict at (mismatch none) r a e = absurd (cc)
confirming_verdict at (mismatch (some o)) r a e = absurd (cc)

due-attested : (now : ℕ) (r : X402Settlement) → is_due now 60 r ≡ true → is_attested r.status ≡ true
unfolding is_due
due-attested now r d = ground arith

abbrev pub IsJustified :
    Text
    → Text
    → (ℕ → Result ReconcileError (Option TxReceipt))
    → Option ℕ
    → X402Settlement
    → X402Settlement
    → Type 0
IsJustified splitter usdc_asset receipts head r s =
    (s.status ≢ chain_confirmed)
    ⊎ ((r.status ≡ chain_confirmed)
        ⊎ ((receipt : TxReceipt) × (receipts r.tx_hash ≡ ok (some receipt))
            × IsBorneOut splitter usdc_asset head r receipt))

is_confirmed : (s : X402SettlementStatus) → (s ≢ chain_confirmed) ⊎ (s ≡ chain_confirmed)
is_confirmed facilitator_attested = inl (λ e. cc)
is_confirmed chain_confirmed = inr refl
is_confirmed mismatched = inl (λ e. cc)
is_confirmed failed = inl (λ e. cc)
is_confirmed orphaned = inl (λ e. cc)

module _ (splitter usdc_asset : Text) (receipts : ℕ → Result ReconcileError (Option TxReceipt))
    (nows : ℕ → ℕ) (head : Option ℕ) (now : ℕ) where
  justified :
      (r s : X402Settlement)
      → IsPassed splitter usdc_asset receipts nows head now r s
      → IsJustified splitter usdc_asset receipts head r s
  justified r s h = elim (is_confirmed s.status) [
    | inl n ↦ inl n
    | inr c ↦ elim h [
      | inl e ↦ inr (inl (ap (λ x. x.status) (sym e) ∙ c))
      | inr (d, e) ↦
          let v =
            confirming_verdict (nows r.id)
              (judge splitter usdc_asset head now r (receipts r.tx_hash)) r (due-attested now r d)
              (ap (λ x. x.status) (sym e) ∙ c) in
          inr (
            inr
              ((judge-confirm splitter usdc_asset head now r (receipts r.tx_hash) v.0 v.1).0 v.2).0)
    ]
  ]

-- Over a table without a repeated id, a row that a pass leaves confirmed was confirmed before, or the
-- node gave a receipt for its transaction that bears the claim out.
pub reconcile_once-confirmed :
    (splitter usdc_asset : Text) (receipts : ℕ → Result ReconcileError (Option TxReceipt))
    (update_ok : ℕ → Bool) (nows : ℕ → ℕ) (query_ok : Bool) (head : Option ℕ) (now : ℕ) (t : Table)
    → DistinctIds t
    → Rowwise
        (IsJustified splitter usdc_asset receipts head)
        t
        (reconcile_once splitter usdc_asset receipts update_ok nows query_ok head now t).1
reconcile_once-confirmed splitter usdc_asset receipts update_ok nows query_ok head now t h =
    Rowwise-map (justified splitter usdc_asset receipts nows head now) t _
      (reconcile_once-IsPassed splitter usdc_asset receipts update_ok nows query_ok head now t h)
