-- ===== src/Services/Settlements/History.antt =====
-- src/services/x402_settlements.rs: what its statements do to a recorded payment, in any order.
use jecp_server.Prelude.{
  ℕ, ◌≡◌, refl, Bool, true, false, ◌&&◌, some, [], ◌∷◌, ◌++◌, arith, ◌==◌, any, Result, ok, err,
  if◌then◌else◌, Bool-cases, inl, inr, Text, any-append, ◌∙◌, ap,
}
use jecp_server.Protocol.X402Types.{chain_confirmed, failed, orphaned, mismatched, X402Error}
use jecp_server.Services.Settlements.{
  X402Settlement, NewSettlement, Table, insert, same_payment, same_tx, fresh_row, violated,
  update_where, set_status, touch, mark_chain_confirmed, mark_failed, mark_orphaned,
  mark_mismatched, is_attested,
}

-- An insertion fails and changes nothing, or no row clashes and it adds one.
pub insert_cases :
    (P : Result X402Error ℕ × Table → Type 0) (query_ok tx_first : Bool) (now id : ℕ)
    (s : NewSettlement) (t : Table)
    → ((e : X402Error) → P (err e, t))
    → (any (same_tx s.tx_hash) t ≡ false
        → any (same_payment s.payer s.eip3009_nonce) t ≡ false
        → P (ok id, t ++ fresh_row now id s ∷ []))
    → P (insert query_ok tx_first now id s t)
unfolding insert violated
insert_cases P false tx_first now id s t failing adding = failing _
insert_cases P true tx_first now id s t failing adding =
    elim (Bool-cases (any (same_tx s.tx_hash) t)) [
      | inl e ↦ elim (Bool-cases (any (same_payment s.payer s.eip3009_nonce) t)) [
        | inl f ↦ rw (e, f) (failing _)
        | inr f ↦ rw (e, f) (failing _)
      ]
      | inr e ↦ elim (Bool-cases (any (same_payment s.payer s.eip3009_nonce) t)) [
        | inl f ↦ rw (e, f) (failing _)
        | inr f ↦ rw (e, f) (adding e f)
      ]
    ]

-- A statement that leaves the columns of the insertion alone.
module _ (p : X402Settlement → Bool) (f : X402Settlement → X402Settlement)
    (keeps : (r : X402Settlement) → (f r).columns ≡ r.columns) where
  columns-update : (r : X402Settlement) → (if p r then f r else r).columns ≡ r.columns
  columns-update r = ground (arith, keeps r)

  any-update_where :
      (q : NewSettlement → Bool) (t : Table)
      → any (λ r. q r.columns) (update_where p f t) ≡ any (λ r. q r.columns) t
  unfolding update_where
  any-update_where q [] = refl
  any-update_where q (r ∷ t) = ground (arith, any-update_where q t, ap q (columns-update r))

  -- What holds of the columns of one table holds of those of the other.
  same-update_where :
      (payer nonce : ℕ) (t : Table)
      → any (same_payment payer nonce) t ≡ true
      → any (same_payment payer nonce) (update_where p f t) ≡ true
  unfolding same_payment
  same-update_where payer nonce t h =
      any-update_where (λ c. c.payer == payer && c.eip3009_nonce == nonce) t ∙ h

-- Every statement of the module that changes the table.
pub data Change (t : Table) : Table → Type 0 where
  inserting :
      (query_ok tx_first : Bool) (now id : ℕ) (s : NewSettlement)
      → Change t (insert query_ok tx_first now id s t).1
  confirming : (now id : ℕ) → Change t (mark_chain_confirmed now id t)
  failing : (now id : ℕ) → Change t (mark_failed now id t)
  orphaning : (now id : ℕ) → Change t (mark_orphaned now id t)
  mismatching :
      (now id amount : ℕ) (recipient : Text) → Change t (mark_mismatched now id amount recipient t)

-- Every such change but the insertion updates rows and leaves their columns alone.
module _ (P : Table → Table → Type 0)
    (updating : (p : X402Settlement → Bool) (f : X402Settlement → X402Settlement)
      → ((r : X402Settlement) → (f r).columns ≡ r.columns)
      → (t : Table) → P t (update_where p f t)) where
  confirming_case : (now id : ℕ) (t : Table) → P t (mark_chain_confirmed now id t)
  unfolding mark_chain_confirmed set_status touch
  confirming_case now id t =
      updating (λ r. r.id == id && is_attested r.status)
        (λ r. record (set_status now chain_confirmed r) { chain_confirmed_at = some now })
        (λ r. refl) t

  failing_case : (now id : ℕ) (t : Table) → P t (mark_failed now id t)
  unfolding mark_failed set_status touch
  failing_case now id t = updating (λ r. r.id == id) (set_status now failed) (λ r. refl) t

  orphaning_case : (now id : ℕ) (t : Table) → P t (mark_orphaned now id t)
  unfolding mark_orphaned set_status touch
  orphaning_case now id t = updating (λ r. r.id == id) (set_status now orphaned) (λ r. refl) t

  mismatching_case :
      (now id amount : ℕ) (recipient : Text) (t : Table)
      → P t (mark_mismatched now id amount recipient t)
  unfolding mark_mismatched set_status touch
  mismatching_case now id amount recipient t =
      updating (λ r. r.id == id)
        (λ r. record (set_status now mismatched r) {
          on_chain_amount_micro = some amount;
          on_chain_recipient = some recipient;
        })
        (λ r. refl) t

  Change-elim :
      ((query_ok tx_first : Bool) (now id : ℕ) (s : NewSettlement) (t : Table)
        → P t (insert query_ok tx_first now id s t).1)
      → {t u : Table} → Change t u
      → P t u
  Change-elim adding {t} (inserting query_ok tx_first now id s) =
      adding query_ok tx_first now id s t
  Change-elim adding {t} (confirming now id) = confirming_case now id t
  Change-elim adding {t} (failing now id) = failing_case now id t
  Change-elim adding {t} (orphaning now id) = orphaning_case now id t
  Change-elim adding {t} (mismatching now id amount recipient) =
      mismatching_case now id amount recipient t

-- An insertion keeps every row.
insert-keeps_payment :
    (payer nonce : ℕ) (query_ok tx_first : Bool) (now id : ℕ) (s : NewSettlement) (t : Table)
    → any (same_payment payer nonce) t ≡ true
    → any (same_payment payer nonce) (insert query_ok tx_first now id s t).1 ≡ true
insert-keeps_payment payer nonce query_ok tx_first now id s t h =
    insert_cases (λ x. any (same_payment payer nonce) x.1 ≡ true) query_ok tx_first now id s t
      (λ e. h)
      λ e f. ground (arith, any-append (same_payment payer nonce) t (fresh_row now id s ∷ []))

-- A payment that is recorded stays recorded.
pub Change-keeps_payment :
    {t u : Table} (payer nonce : ℕ)
    → Change t u
    → any (same_payment payer nonce) t ≡ true
    → any (same_payment payer nonce) u ≡ true
Change-keeps_payment payer nonce =
    Change-elim
      (λ t u. any (same_payment payer nonce) t ≡ true → any (same_payment payer nonce) u ≡ true)
      (λ p f k. same-update_where p f k payer nonce) (insert-keeps_payment payer nonce)

-- A sequence of changes, and what they do to a recorded payment.
pub data History (t : Table) : Table → Type 0 where
  start : History t t
  later : {u v : Table} → History t u → Change u v → History t v

pub History-keeps_payment :
    {t u : Table} (payer nonce : ℕ)
    → History t u
    → any (same_payment payer nonce) t ≡ true
    → any (same_payment payer nonce) u ≡ true
History-keeps_payment payer nonce start e = e
History-keeps_payment payer nonce (later h c) e =
    Change-keeps_payment payer nonce c (History-keeps_payment payer nonce h e)

pub appended-payment :
    (payer nonce : ℕ) (row : X402Settlement) (t : Table)
    → row.payer ≡ payer
    → row.eip3009_nonce ≡ nonce
    → any (same_payment payer nonce) (t ++ row ∷ []) ≡ true
unfolding same_payment
appended-payment payer nonce row t p n =
    ground (arith, any-append (same_payment payer nonce) t (row ∷ []))
