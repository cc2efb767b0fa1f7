-- ===== src/Services/Reconciler/Pass.antt =====
-- What one pass does to each row of the table.
use jecp_server.Prelude.{
  ℕ, ◌≡◌, ◌⊎◌, inl, inr, refl, Bool, true, false, Option, none, some, List, [], ◌∷◌, Text, All,
  arith, ◌==◌, any, Result, if◌then◌else◌, Bool-cases,
}
use jecp_server.Services.Settlements.{
  X402Settlement, Table, is_due, update_where, attested_older_than,
}
use jecp_server.Services.Reconciler.{
  TxReceipt, ReconcileError, ReconcileStats, Verdict, leave, defer, fail, orphan, confirm, mismatch,
  judge, record_verdict, needs_update, count, reconcile_rows, reconcile_once, batch_limit, no_stats,
}
use jecp_server.Services.Reconciler.Rows.{
  DistinctIds, IsOnly, DistinctIds-attested_older_than, DistinctIds-IsOnly, All-attested_older_than,
  attested_older_than-due,
}

-- The rows of two tables, in pairs.
abbrev pub Rowwise : (X402Settlement → X402Settlement → Type 0) → Table → Table → Type 0
Rowwise R [] [] = Unit
Rowwise R (r ∷ t) (s ∷ u) = R r s × Rowwise R t u
Rowwise R [] (s ∷ u) = ⊥
Rowwise R (r ∷ t) [] = ⊥

pub Rowwise-refl :
    (R : X402Settlement → X402Settlement → Type 0)
    → ((r : X402Settlement) → R r r)
    → (t : Table) → Rowwise R t t
Rowwise-refl R f [] = tt
Rowwise-refl R f (r ∷ t) = (f r, Rowwise-refl R f t)

pub Rowwise-map :
    {R S : X402Settlement → X402Settlement → Type 0}
    → ((r s : X402Settlement) → R r s → S r s)
    → (t u : Table) → Rowwise R t u
    → Rowwise S t u
Rowwise-map f [] [] h = tt
Rowwise-map f (r ∷ t) (s ∷ u) h = (f r s h.0, Rowwise-map f t u h.1)
Rowwise-map f [] (s ∷ u) h = absurd h
Rowwise-map f (r ∷ t) [] h = absurd h

module _ (splitter usdc_asset : Text) (receipts : ℕ → Result ReconcileError (Option TxReceipt))
    (nows : ℕ → ℕ) (head : Option ℕ) (now : ℕ) where
  -- The row as the pass leaves it, where it gets to it.
  abbrev pub judged : X402Settlement → X402Settlement
  judged r =
      record_verdict (nows r.id) (judge splitter usdc_asset head now r (receipts r.tx_hash)) r

  -- The row is as it was, or it was due and is as it is judged.
  abbrev pub IsPassed : X402Settlement → X402Settlement → Type 0
  IsPassed r s = (s ≡ r) ⊎ ((is_due now 60 r ≡ true) × (s ≡ judged r))

  -- The same, with the rows that are still to come untouched.
  abbrev IsPassedBut : List X402Settlement → X402Settlement → X402Settlement → Type 0
  IsPassedBut rows r s =
      (s ≡ r) ⊎ ((is_due now 60 r ≡ true) × (s ≡ judged r) × (any (λ x. r.id == x.id) rows ≡ false))

  judged-id : (v : Verdict) (at : ℕ) (r : X402Settlement) → (record_verdict at v r).id ≡ r.id
  unfolding record_verdict
  judged-id leave at r = refl
  judged-id defer at r = refl
  judged-id fail at r = refl
  judged-id orphan at r = refl
  judged-id (confirm to value) at r = refl
  judged-id (mismatch none) at r = refl
  judged-id (mismatch (some o)) at r = refl

  absent :
      (r x : X402Settlement) (rows : List X402Settlement)
      → (r.id == x.id) ≡ true
      → All (λ y. (y.id == x.id) ≡ false) rows
      → any (λ y. r.id == y.id) rows ≡ false
  absent r x [] e a = refl
  absent r x (y ∷ rows) e a = ground (arith, absent r x rows e a.1)

  -- Writing the verdict on the next row.
  written-row :
      (x r s : X402Settlement) (rows : List X402Settlement)
      → is_due now 60 x ≡ true
      → All (λ y. (y.id == x.id) ≡ false) rows
      → ((r.id == x.id) ≡ true → r ≡ x)
      → IsPassedBut (x ∷ rows) r s
      → IsPassedBut rows r (
          if s.id == x.id
          then record_verdict
              (nows x.id)
              (judge splitter usdc_asset head now x (receipts x.tx_hash))
              s
          else s)
  written-row x r s rows d a o (inl e) = elim (Bool-cases (r.id == x.id)) [
    | inl k ↦ rw (e, k) (inr (rw (o k) d, rw (o k) refl, absent r x rows k a))
    | inr k ↦ rw (e, k) (inl refl)
  ]
  written-row x r s rows d a o (inr (due, e, n)) = rw (other) (inr (due, e, ground arith))
    where
      other : (s.id == x.id) ≡ false
      other = ground (
        arith,
        judged-id (judge splitter usdc_asset head now r (receipts r.tx_hash)) (nows r.id) r,
      )

  written-IsPassedBut :
      (x : X402Settlement) (rows : List X402Settlement) (t u : Table)
      → is_due now 60 x ≡ true
      → All (λ y. (y.id == x.id) ≡ false) rows
      → IsOnly t x
      → Rowwise (IsPassedBut (x ∷ rows)) t u
      → Rowwise (IsPassedBut rows) t (
          update_where
            (λ s. s.id == x.id)
            (record_verdict (nows x.id) (judge splitter usdc_asset head now x (receipts x.tx_hash)))
            u)
  unfolding update_where
  written-IsPassedBut x rows [] [] d a o h = tt
  written-IsPassedBut x rows (r ∷ t) (s ∷ u) d a o h =
      (written-row x r s rows d a o.0 h.0, written-IsPassedBut x rows t u d a o.1 h.1)
  written-IsPassedBut x rows [] (s ∷ u) d a o h = absurd h
  written-IsPassedBut x rows (r ∷ t) [] d a o h = absurd h

  weaken :
      (x : X402Settlement) (rows : List X402Settlement) (r s : X402Settlement)
      → IsPassedBut (x ∷ rows) r s
      → IsPassedBut rows r s
  weaken x rows r s (inl e) = inl e
  weaken x rows r s (inr (d, e, n)) = inr (d, e, ground arith)

  forget : (rows : List X402Settlement) (r s : X402Settlement) → IsPassedBut rows r s → IsPassed r s
  forget rows r s (inl e) = inl e
  forget rows r s (inr (d, e, n)) = inr (d, e)

  reconcile_rows-IsPassed :
      (update_ok : ℕ → Bool) (rows : List X402Settlement) (stats : ReconcileStats) (t u : Table)
      → All (λ x. is_due now 60 x ≡ true) rows
      → DistinctIds rows
      → All (IsOnly t) rows
      → Rowwise (IsPassedBut rows) t u
      → Rowwise IsPassed t
          (reconcile_rows splitter usdc_asset receipts update_ok nows head now rows stats u).1
  unfolding reconcile_rows
  reconcile_rows-IsPassed update_ok [] stats t u d a o h = Rowwise-map (forget []) t u h
  reconcile_rows-IsPassed update_ok (x ∷ rows) stats t u d a o h =
      elim (Bool-cases (needs_update v)) [
        | inl n ↦ elim (Bool-cases (update_ok x.id)) [
          | inl k ↦
              rw (n, k)
                (reconcile_rows-IsPassed update_ok rows (count v stats) t _ d.1 a.1 o.1
                  (written-IsPassedBut x rows t u d.0 a.0 o.0 h))
          | inr k ↦ rw (n, k) (Rowwise-map (forget (x ∷ rows)) t u h)
        ]
        | inr n ↦ rw n (
            reconcile_rows-IsPassed update_ok rows (count v stats) t u d.1 a.1 o.1
              (Rowwise-map (weaken x rows) t u h))
      ]
    where
      v : Verdict
      v = judge splitter usdc_asset head now x (receipts x.tx_hash)

-- After a pass over a table without a repeated id, wherever it ends, each row is as it was, or it was due
-- (attested, and settled more than 60 seconds before) and is written once, by the verdict on its own
-- transaction.
pub reconcile_once-IsPassed :
    (splitter usdc_asset : Text) (receipts : ℕ → Result ReconcileError (Option TxReceipt))
    (update_ok : ℕ → Bool) (nows : ℕ → ℕ) (query_ok : Bool) (head : Option ℕ) (now : ℕ) (t : Table)
    → DistinctIds t
    → Rowwise
        (IsPassed splitter usdc_asset receipts nows head now)
        t
        (reconcile_once splitter usdc_asset receipts update_ok nows query_ok head now t).1
unfolding reconcile_once
reconcile_once-IsPassed splitter usdc_asset receipts update_ok nows false head now t h =
    Rowwise-refl _ (λ r. inl refl) t
reconcile_once-IsPassed splitter usdc_asset receipts update_ok nows true head now t h =
    reconcile_rows-IsPassed splitter usdc_asset receipts nows head now update_ok
      (attested_older_than now 60 batch_limit t) no_stats t t
      (attested_older_than-due now 60 batch_limit t)
      (DistinctIds-attested_older_than now 60 batch_limit t h)
      (All-attested_older_than (IsOnly t) now 60 batch_limit t (DistinctIds-IsOnly t h))
      (Rowwise-refl _ (λ r. inl refl) t)
