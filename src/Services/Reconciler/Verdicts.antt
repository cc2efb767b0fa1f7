-- ===== src/Services/Reconciler/Verdicts.antt =====
-- When a verdict confirms, fails, orphans or defers a settlement.
use jecp_server.Prelude.{
  ℕ, ◌+◌, ◌≤◌, ◌≡◌, ◌↔◌, inl, inr, refl, true, false, Option, none, some, Text, text_eq, text_eq→eq,
  text_eq_refl, arith, ◌==◌, Result, ok, err, Bool-cases,
}
use jecp_server.Services.Settlements.{X402Settlement}
use jecp_server.Services.Reconciler.{
  TxReceipt, ReconcileError, confirm, judge, compare_claim, too_shallow, as_u128,
  extract_transfer_observation, min_confirmations,
}

-- Where the head of the chain and the receipt's block are known, the block is deep enough.
abbrev pub IsDeep : Option ℕ → Option ℕ → Type 0
IsDeep (some head) (some block_no) = block_no + min_confirmations ≤ head
IsDeep none block_no = Unit
IsDeep (some head) none = Unit

-- The chain bears the claim out: the transaction succeeded and is deep enough, and its first USDC
-- Transfer pays the claimed amount to the splitter.
abbrev pub IsBorneOut : Text → Text → Option ℕ → X402Settlement → TxReceipt → Type 0
IsBorneOut splitter usdc_asset head r receipt =
    (receipt.status_ok ≡ true)
    × IsDeep head receipt.block_number
    × (extract_transfer_observation usdc_asset receipt.logs
        ≡ some (splitter, as_u128 r.amount_usdc_micro))

too_shallow-IsDeep :
    (head block_no : Option ℕ) → (too_shallow head block_no ≡ false) ↔ IsDeep head block_no
unfolding too_shallow
too_shallow-IsDeep none block_no = (λ _. tt, λ _. refl)
too_shallow-IsDeep (some head) none = (λ _. tt, λ _. refl)
too_shallow-IsDeep (some head) (some block_no) = (λ h. ground arith, λ h. ground arith)

compare_claim-confirm :
    (splitter : Text) (claimed : ℕ) (o : Option (Text × ℕ)) (to : Text) (value : ℕ)
    → compare_claim splitter claimed o ≡ confirm to value
    → o ≡ some (splitter, as_u128 claimed)
unfolding compare_claim
compare_claim-confirm splitter claimed none to value e = absurd (cc)
compare_claim-confirm splitter claimed (some (paid, v)) to value e =
    elim (Bool-cases (v == as_u128 claimed)) [
      | inl e1 ↦ elim (Bool-cases (text_eq paid splitter)) [
        | inl e2 ↦ ground (arith, text_eq→eq paid splitter e2)
        | inr e2 ↦ ground arith
      ]
      | inr e1 ↦ ground arith
    ]

compare_claim-exact :
    (splitter : Text) (claimed : ℕ)
    → compare_claim splitter claimed (some (splitter, as_u128 claimed))
      ≡ confirm splitter (as_u128 claimed)
unfolding compare_claim
compare_claim-exact splitter claimed = ground (arith, text_eq_refl splitter)

confirmed :
    (splitter usdc_asset : Text) (head : Option ℕ) (now : ℕ) (r : X402Settlement)
    (reply : Result ReconcileError (Option TxReceipt)) (to : Text) (value : ℕ)
    → judge splitter usdc_asset head now r reply ≡ confirm to value
    → (receipt : TxReceipt) × (reply ≡ ok (some receipt))
      × IsBorneOut splitter usdc_asset head r receipt
unfolding judge
confirmed splitter usdc_asset head now r (err e) to value h = absurd (cc)
confirmed splitter usdc_asset head now r (ok none) to value h = absurd (ground arith)
confirmed splitter usdc_asset head now r (ok (some receipt)) to value h =
    elim (Bool-cases receipt.status_ok) [
      | inr s ↦ absurd (ground arith)
      | inl s ↦ elim (Bool-cases (too_shallow head receipt.block_number)) [
        | inl d ↦ absurd (ground arith)
        | inr d ↦ (
          receipt,
          refl,
          (
            s,
            (too_shallow-IsDeep head receipt.block_number).0 d,
            compare_claim-confirm splitter r.amount_usdc_micro _ to value (ground arith),
          ),
        )
      ]
    ]

borne_out :
    (splitter usdc_asset : Text) (head : Option ℕ) (now : ℕ) (r : X402Settlement)
    (receipt : TxReceipt)
    → IsBorneOut splitter usdc_asset head r receipt
    → judge splitter usdc_asset head now r (ok (some receipt))
      ≡ confirm splitter (as_u128 r.amount_usdc_micro)
unfolding judge
borne_out splitter usdc_asset head now r receipt b =
    rw (b.0, (too_shallow-IsDeep head receipt.block_number).1 b.1, b.2)
      (compare_claim-exact splitter r.amount_usdc_micro)

-- A settlement is confirmed exactly when the node has a receipt that bears it out, and then for the
-- splitter and the claimed amount.
pub judge-confirm :
    (splitter usdc_asset : Text) (head : Option ℕ) (now : ℕ) (r : X402Settlement)
    (reply : Result ReconcileError (Option TxReceipt)) (to : Text) (value : ℕ)
    → (judge splitter usdc_asset head now r reply ≡ confirm to value) ↔ (
        ((receipt : TxReceipt) × (reply ≡ ok (some receipt))
          × IsBorneOut splitter usdc_asset head r receipt)
        × (to ≡ splitter)
        × (value ≡ as_u128 r.amount_usdc_micro))
judge-confirm splitter usdc_asset head now r reply to value = (
  (λ h.
      let c = confirmed splitter usdc_asset head now r reply to value h in
      (c, (same c.0 c.1 c.2 h).0, (same c.0 c.1 c.2 h).1)),
  λ x. ground (arith, borne_out splitter usdc_asset head now r x.0.0 x.0.2),
)
  where
    same :
        (receipt : TxReceipt)
        → reply ≡ ok (some receipt)
        → IsBorneOut splitter usdc_asset head r receipt
        → judge splitter usdc_asset head now r reply ≡ confirm to value
        → (to ≡ splitter) × (value ≡ as_u128 r.amount_usdc_micro)
    same receipt e b h = (
      ground (arith, borne_out splitter usdc_asset head now r receipt b),
      ground (arith, borne_out splitter usdc_asset head now r receipt b),
    )
