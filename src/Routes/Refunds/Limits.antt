-- ===== src/Routes/Refunds/Limits.antt =====
-- src/routes/refunds.rs: the limits of a day, where no other request comes between the counts of one and its
-- insertion.
use jecp_server.Prelude.{
  ℕ, ◌≤◌, ◌<◌, ◌≡◌, ◌⊎◌, refl, sym, subst, inl, inr, Bool, true, false, ◌&&◌, List, [], ◌∷◌, map,
  Text, any, length, retain, ◌==◌, Result, ok, err, arith, Bool-cases, Result-cases,
}
use jecp_server.Routes.Refunds.{
  Refund, Table, RequestReadings, DecisionReadings, Effect, Refusal, is_recent, agent_count,
  pair_count, insert, check_refund, attempt, request_refund, approve_refund, deny_refund,
  rate_limit_per_day, pair_limit,
}
use jecp_server.Routes.Refunds.Accepted.{request_refund-IsRefundable}
use jecp_server.Routes.Refunds.Rewritten.{
  IsKeeping, IsRewritten, approve_refund-IsRewritten, deny_refund-IsRewritten,
}

ok_ne_err : {E A : Type 0} {e : E} {a : A} → ◌≡◌ {A = Result E A} (ok a) (err e) → ⊥
ok_ne_err h = cc

retain_le :
    (p q : Refund → Bool) (t : Table)
    → ((r : Refund) → p r ≡ true → q r ≡ true)
    → length (retain p t) ≤ length (retain q t)
retain_le p q [] h = omega arith
retain_le p q (r ∷ t) h = ground (arith, retain_le p q t h, h r)

retain-map :
    (p : Refund → Bool) (f : Refund → Refund) (t : Table)
    → ((r : Refund) → p (f r) ≡ p r)
    → length (retain p (map f t)) ≡ length (retain p t)
retain-map p f [] h = refl
retain-map p f (r ∷ t) h = ground (arith, retain-map p f t h, h r)

-- No agent has more than five refunds of the last day, or more than three with one provider.
pub record IsLimited (now : ℕ) (t : Table) : Type 0 where
  pub agent_limit : (agent : ℕ) → agent_count now agent t ≤ rate_limit_per_day
  pub provider_limit : (agent provider : ℕ) → pair_count now agent provider t ≤ pair_limit

agent_count_later :
    (now later agent : ℕ) (t : Table)
    → now ≤ later
    → agent_count later agent t ≤ agent_count now agent t
unfolding agent_count is_recent
agent_count_later now later agent t le =
    retain_le (λ r. r.agent_id == agent && is_recent later r)
      (λ r. r.agent_id == agent && is_recent now r) t (λ r e. ground arith)

pair_count_later :
    (now later agent provider : ℕ) (t : Table)
    → now ≤ later
    → pair_count later agent provider t ≤ pair_count now agent provider t
unfolding pair_count is_recent
pair_count_later now later agent provider t le =
    retain_le (λ r. r.agent_id == agent && (r.provider_id == provider && is_recent later r))
      (λ r. r.agent_id == agent && (r.provider_id == provider && is_recent now r)) t
      (λ r e. ground arith)

pub later-IsLimited :
    (now later : ℕ) (t : Table) → now ≤ later → IsLimited now t → IsLimited later t
later-IsLimited now later t le h = record {
  agent_limit = λ agent. omega (arith, agent_count_later now later agent t le, h.agent_limit agent);
  provider_limit = λ agent provider.
      omega
        (arith, pair_count_later now later agent provider t le, h.provider_limit agent provider);
}

agent_count-map :
    (now agent : ℕ) (f : Refund → Refund) (t : Table)
    → IsKeeping f
    → agent_count now agent (map f t) ≡ agent_count now agent t
unfolding agent_count is_recent
agent_count-map now agent f t k =
    retain-map (λ r. r.agent_id == agent && is_recent now r) f t
      (λ r. rw (k.agent_id r, k.requested_at r) refl)

pair_count-map :
    (now agent provider : ℕ) (f : Refund → Refund) (t : Table)
    → IsKeeping f
    → pair_count now agent provider (map f t) ≡ pair_count now agent provider t
unfolding pair_count is_recent
pair_count-map now agent provider f t k =
    retain-map (λ r. r.agent_id == agent && (r.provider_id == provider && is_recent now r)) f t
      (λ r. rw (k.agent_id r, k.provider_id r, k.requested_at r) refl)

map-IsLimited :
    (now : ℕ) (f : Refund → Refund) (t : Table)
    → IsKeeping f
    → IsLimited now t
    → IsLimited now (map f t)
map-IsLimited now f t k h = record {
  agent_limit = λ agent. rw (agent_count-map now agent f t k) (h.agent_limit agent);
  provider_limit = λ agent provider.
      rw (pair_count-map now agent provider f t k) (h.provider_limit agent provider);
}

rewritten-IsLimited : (now : ℕ) (t u : Table) → IsRewritten t u → IsLimited now t → IsLimited now u
rewritten-IsLimited now t u (inl e) h = subst (IsLimited now) (sym e) h
rewritten-IsLimited now t u (inr (f, k, e)) h =
    subst (IsLimited now) (sym e) (map-IsLimited now f t k h)

-- One row more, of an agent that is below both limits.
cons-IsLimited :
    (now : ℕ) (row : Refund) (t : Table)
    → agent_count now row.agent_id t < rate_limit_per_day
    → pair_count now row.agent_id row.provider_id t < pair_limit
    → IsLimited now t
    → IsLimited now (row ∷ t)
unfolding agent_count pair_count
cons-IsLimited now row t ha hp h = record {
  agent_limit = λ agent. elim (Bool-cases (row.agent_id == agent)) [
    | inl e ↦ ground (arith, h.agent_limit agent)
    | inr e ↦ ground (arith, h.agent_limit agent)
  ];
  provider_limit = λ agent provider. ground (arith, h.provider_limit agent provider);
}

counted : (b : Bool) (n k : ℕ) → b ≡ true → (b ≡ false) ⊎ (n < k) → n < k
counted b n k h (inl no_answer) = absurd (cc)
counted b n k h (inr below) = below

insert_refused :
    (insert_ok : Bool) (row : Refund) (t : Table) (e : Refusal)
    → (insert insert_ok row t).0 ≡ err e
    → (insert insert_ok row t).1 ≡ t
unfolding insert
insert_refused insert_ok row t e h =
    elim (Bool-cases (any (λ r. r.transaction_id == row.transaction_id) t)) [
      | inl d ↦ rw (d, insert) refl
      | inr d ↦ elim (Bool-cases insert_ok) [
        | inl i ↦ absurd (ok_ne_err (rw (d, i, insert) at h))
        | inr i ↦ rw (d, i, insert) refl
      ]
    ]

module _ (bcrypt_verify : Text → Text → Bool) where
  attempt_refused :
      (insert_ok : Bool) (t : Table) (checked : Result Refusal Refund) (e : Refusal)
      → (attempt bcrypt_verify insert_ok t checked).0 ≡ err e
      → (attempt bcrypt_verify insert_ok t checked).1 ≡ t
  unfolding attempt
  attempt_refused insert_ok t (err f) e h = refl
  attempt_refused insert_ok t (ok row) e h = insert_refused insert_ok row t e h

  refused_same :
      (q : RequestReadings) (before t : Table) (e : Refusal)
      → (request_refund bcrypt_verify q before t).0 ≡ err e
      → (request_refund bcrypt_verify q before t).1 ≡ t
  unfolding request_refund
  refused_same q before t e h =
      attempt_refused q.insert_ok t (check_refund bcrypt_verify q before) e h

  request_refund-IsLimited :
      (q : RequestReadings) (t : Table)
      → q.agent_count_ok ≡ true
      → q.pair_count_ok ≡ true
      → IsLimited q.now t
      → IsLimited q.now (request_refund bcrypt_verify q t t).1
  request_refund-IsLimited q t ha hp h =
      elim (Result-cases (request_refund bcrypt_verify q t t).0) [
        | inl (row, e) ↦
            let (good, new, added) = request_refund-IsRefundable bcrypt_verify q t t row e in
            subst (IsLimited q.now) (sym added) (
              cons-IsLimited q.now row t (counted q.agent_count_ok _ _ ha good.in_limit)
                (counted q.pair_count_ok _ _ hp good.in_pair_limit) h)
        | inr (e, he) ↦ subst (IsLimited q.now) (sym (refused_same q t t e he)) h
      ]

  -- What requests and decisions make of the empty table where each request is alone from its counts, which the
  -- database answers, to its insertion, and the clock does not go back.
  pub data Sequence : ℕ → Table → Type 0 where
    begin : (now : ℕ) → Sequence now []
    next :
        (q : RequestReadings) (now : ℕ) (t : Table)
        → Sequence now t
        → now ≤ q.now
        → q.agent_count_ok ≡ true
        → q.pair_count_ok ≡ true
        → Sequence q.now (request_refund bcrypt_verify q t t).1
    approval :
        (d : DecisionReadings) (id now : ℕ) (before t : Table) (log : List Effect)
        → Sequence now t
        → Sequence now
            (approve_refund bcrypt_verify d id before (record { refunds = t; log = log })).1.refunds
    denial :
        (d : DecisionReadings) (parsed : Bool) (id now : ℕ) (before t : Table) (log : List Effect)
        → Sequence now t
        → Sequence now
            (deny_refund bcrypt_verify d parsed id before
              (record { refunds = t; log = log })).1.refunds

  -- In such a sequence no agent ever has more than five refunds of the last day, or more than three of the
  -- last day with one provider.
  pub Sequence-IsLimited : (now : ℕ) (t : Table) → Sequence now t → IsLimited now t
  unfolding agent_count pair_count
  Sequence-IsLimited now _ (begin _) = record {
    agent_limit = λ agent. omega arith;
    provider_limit = λ agent provider. omega arith;
  }
  Sequence-IsLimited _ _ (next q now t s le ha hp) =
      request_refund-IsLimited q t ha hp
        (later-IsLimited now q.now t le (Sequence-IsLimited now t s))
  Sequence-IsLimited now _ (approval d id _ before t log s) =
      rewritten-IsLimited now t _
        (approve_refund-IsRewritten bcrypt_verify d id before (record { refunds = t; log = log }))
        (Sequence-IsLimited now t s)
  Sequence-IsLimited now _ (denial d parsed id _ before t log s) =
      rewritten-IsLimited now t _
        (deny_refund-IsRewritten bcrypt_verify d parsed id before
          (record { refunds = t; log = log }))
        (Sequence-IsLimited now t s)
