-- ===== src/Routes/Refunds/Rewritten.antt =====
-- src/routes/refunds.rs: what decisions leave of the rows.
use jecp_server.Prelude.{
  ℕ, ◌≡◌, refl, ◌⊎◌, inl, inr, Bool, true, false, map, Text, ◌==◌, Result, ok, err, if◌then◌else◌,
  Bool-cases,
}
use jecp_server.Routes.Refunds.{
  Refund, Table, DecisionReadings, Store, Refusal, update_refund, set_approved, set_denied,
  if_updated, check_decision, apply_approval, apply_denial, decide, approve_refund, deny_refund,
}

-- A change of rows that keeps what the counts and the constraint read.
pub record IsKeeping (f : Refund → Refund) : Type 0 where
  pub transaction_id : (r : Refund) → (f r).transaction_id ≡ r.transaction_id
  pub agent_id : (r : Refund) → (f r).agent_id ≡ r.agent_id
  pub provider_id : (r : Refund) → (f r).provider_id ≡ r.provider_id
  pub requested_at : (r : Refund) → (f r).requested_at ≡ r.requested_at

kept_if : (g : Refund → ℕ) (b : Bool) (s r : Refund) → g s ≡ g r → g (if b then s else r) ≡ g r
kept_if g true s r h = h
kept_if g false s r h = refl

at_id-IsKeeping :
    (id : ℕ) (f : Refund → Refund) → IsKeeping f → IsKeeping (λ r. if r.id == id then f r else r)
at_id-IsKeeping id f k = record {
  transaction_id = λ r. kept_if (λ x. x.transaction_id) (r.id == id) (f r) r (k.transaction_id r);
  agent_id = λ r. kept_if (λ x. x.agent_id) (r.id == id) (f r) r (k.agent_id r);
  provider_id = λ r. kept_if (λ x. x.provider_id) (r.id == id) (f r) r (k.provider_id r);
  requested_at = λ r. kept_if (λ x. x.requested_at) (r.id == id) (f r) r (k.requested_at r);
}

-- The second table is the first, or the first with its rows so changed.
abbrev pub IsRewritten : Table → Table → Type 0
IsRewritten t u = (u ≡ t) ⊎ ((f : Refund → Refund) × IsKeeping f × (u ≡ map f t))

if_updated-IsRewritten :
    (b : Bool) (id : ℕ) (f : Refund → Refund) (t : Table)
    → IsKeeping f
    → IsRewritten t (if_updated b (update_refund id f t) t)
unfolding if_updated update_refund
if_updated-IsRewritten true id f t k =
    inr ((λ r. if r.id == id then f r else r), at_id-IsKeeping id f k, refl)
if_updated-IsRewritten false id f t k = inl refl

set_approved-IsKeeping : IsKeeping set_approved
unfolding set_approved
set_approved-IsKeeping = record {
  transaction_id = λ r. refl;
  agent_id = λ r. refl;
  provider_id = λ r. refl;
  requested_at = λ r. refl;
}

set_denied-IsKeeping : (now : ℕ) → IsKeeping (set_denied now)
unfolding set_denied
set_denied-IsKeeping now = record {
  transaction_id = λ r. refl;
  agent_id = λ r. refl;
  provider_id = λ r. refl;
  requested_at = λ r. refl;
}

module _ (bcrypt_verify : Text → Text → Bool) where
  apply_approval-IsRewritten :
      (d : DecisionReadings) (id : ℕ) (s : Store)
      → IsRewritten s.refunds (apply_approval bcrypt_verify d id s).1.refunds
  unfolding apply_approval
  apply_approval-IsRewritten d id s = elim (Bool-cases d.process_ok) [
    | inl e ↦
        rw (e, apply_approval)
          (if_updated-IsRewritten d.update_ok id set_approved s.refunds set_approved-IsKeeping)
    | inr e ↦
        rw (e, apply_approval)
          (if_updated-IsRewritten d.update_ok id set_approved s.refunds set_approved-IsKeeping)
  ]

  decide-IsRewritten :
      (checked : Result Refusal (Unit {0})) (done : Result Refusal (Unit {0}) × Store) (s : Store)
      → IsRewritten s.refunds done.1.refunds
      → IsRewritten s.refunds (decide bcrypt_verify checked done s).1.refunds
  unfolding decide
  decide-IsRewritten (err e) done s h = inl refl
  decide-IsRewritten (ok u) done s h = h

  pub approve_refund-IsRewritten :
      (d : DecisionReadings) (id : ℕ) (before : Table) (s : Store)
      → IsRewritten s.refunds (approve_refund bcrypt_verify d id before s).1.refunds
  unfolding approve_refund
  approve_refund-IsRewritten d id before s =
      decide-IsRewritten (check_decision bcrypt_verify d true id before)
        (apply_approval bcrypt_verify d id s) s (apply_approval-IsRewritten d id s)

  pub deny_refund-IsRewritten :
      (d : DecisionReadings) (parsed : Bool) (id : ℕ) (before : Table) (s : Store)
      → IsRewritten s.refunds (deny_refund bcrypt_verify d parsed id before s).1.refunds
  unfolding deny_refund apply_denial
  deny_refund-IsRewritten d parsed id before s =
      decide-IsRewritten (check_decision bcrypt_verify d parsed id before)
        (apply_denial bcrypt_verify d id s) s
        (if_updated-IsRewritten d.update_ok id (set_denied d.now) s.refunds
          (set_denied-IsKeeping d.now))
