-- ===== src/Routes/Refunds/Accepted.antt =====
-- src/routes/refunds.rs: what holds of a refund that is accepted.
use text.Mathlib.Text.{◌==◌ as str_eq}
use jecp_server.Prelude.{
  ℕ, ◌+◌, ◌*◌, ◌<◌, ◌≡◌, refl, subst, ◌⊎◌, inl, inr, Bool, true, false, not, some, ◌∷◌, Text, any,
  ltb, leb, ◌==◌, Result, ok, err, guard, ok_or, >>=-eq-ok, ok-injective, guard-eq-ok, ok_or-eq-ok,
  arith, Bool-cases,
}
use jecp_server.Routes.Refunds.{
  Refund, Table, Transaction, RequestReadings, Refusal, refuse, day, refund_window_days,
  rate_limit_per_day, pair_limit, agent_count, pair_count, or_zero, is_some, new_refund, insert,
  check_refund, attempt, request_refund,
}

not-true : {b : Bool} → not b ≡ true → b ≡ false
not-true h = ground arith

below_limit : {k n : ℕ} → not (leb k n) ≡ true → n < k
below_limit h = ground arith

-- A limit on a count that is taken for 0 where its query fails.
counted : (answers : Bool) (n k : ℕ) → or_zero answers n < k → (answers ≡ false) ⊎ (n < k)
unfolding or_zero
counted true n k h = inr h
counted false n k h = inl refl

err_ne_ok : {E A : Type 0} {e : E} {a : A} → ◌≡◌ {A = Result E A} (err e) (ok a) → ⊥
err_ne_ok h = cc

module _ (bcrypt_verify : Text → Text → Bool) where
  -- The agent's key is right, the charge is its own, not refunded and at most 30 days old, and the agent has
  -- fewer than five refunds of the last day, fewer than three of them with the provider, where these
  -- counts can be read.
  pub record IsRefundable (q : RequestReadings) (before : Table) (row : Refund) : Type 0 where
    pub key : Text
    pub hash : Text
    pub claimed : q.agent_creds ≡ some (row.agent_id, key)
    pub stored : q.api_key_hash ≡ some hash
    pub authentic : bcrypt_verify key hash ≡ true
    pub tx : Transaction
    pub found : q.transaction ≡ some tx
    pub asked : q.body ≡ some row.transaction_id
    pub own : (tx.agent_id == row.agent_id) ≡ true
    pub charge : str_eq tx.kind "charge" ≡ true
    pub not_refunded : is_some tx.refunded_at ≡ false
    pub young : ltb (tx.created_at + refund_window_days * day) q.now ≡ false
    pub in_limit :
        (q.agent_count_ok ≡ false) ⊎ (agent_count q.now row.agent_id before < rate_limit_per_day)
    pub provider : tx.provider_id ≡ some row.provider_id
    pub in_pair_limit :
        (q.pair_count_ok ≡ false)
        ⊎ (pair_count q.now row.agent_id row.provider_id before < pair_limit)
    pub amount : row.amount_usdc ≡ tx.amount_usdc
    pub open_now : str_eq row.status "requested" ≡ true
    pub dated : row.requested_at ≡ q.now

  pub check_refund-IsRefundable :
      (q : RequestReadings) (before : Table) (row : Refund)
      → check_refund bcrypt_verify q before ≡ ok row
      → IsRefundable q before row
  unfolding check_refund new_refund
  check_refund-IsRefundable q before row h0 =
      let (u0, j, h1) = >>=-eq-ok (guard q.is_json (refuse 415 "UNSUPPORTED_MEDIA_TYPE")) _ h0 in
      let (creds, c, h2) = >>=-eq-ok (ok_or q.agent_creds (refuse 401 "AUTH_REQUIRED")) _ h1 in
      let (id, b, h3) = >>=-eq-ok (ok_or q.body (refuse 400 "INVALID_BODY")) _ h2 in
      let (u1, p, h4) = >>=-eq-ok (guard q.has_pool (refuse 500 "DB_UNAVAILABLE")) _ h3 in
      let (hash, a, h5) = >>=-eq-ok (ok_or q.api_key_hash (refuse 401 "INVALID_AGENT")) _ h4 in
      let (u2, k, h6) =
        >>=-eq-ok (guard (bcrypt_verify creds.1 hash) (refuse 401 "INVALID_AGENT")) _ h5 in
      let (tx, t, h7) = >>=-eq-ok (ok_or q.transaction (refuse 404 "TRANSACTION_NOT_FOUND")) _ h6 in
      let (u3, o, h8) = >>=-eq-ok (guard (tx.agent_id == creds.0) (refuse 403 "FORBIDDEN")) _ h7 in
      let (u4, y, h9) =
        >>=-eq-ok (guard (str_eq tx.kind "charge") (refuse 400 "INVALID_TRANSACTION")) _ h8 in
      let (u5, n, h10) =
        >>=-eq-ok (guard (not (is_some tx.refunded_at)) (refuse 409 "ALREADY_REFUNDED")) _ h9 in
      let (u6, w, h11) =
        >>=-eq-ok
          (guard (not (ltb (tx.created_at + refund_window_days * day) q.now))
            (refuse 400 "REFUND_WINDOW_EXPIRED"))
          _ h10 in
      let (u7, l, h12) =
        >>=-eq-ok
          (guard
            (not (
              leb rate_limit_per_day (or_zero q.agent_count_ok (agent_count q.now creds.0 before))))
            (refuse 429 "RATE_LIMITED"))
          _ h11 in
      let (provider, v, h13) =
        >>=-eq-ok (ok_or tx.provider_id (refuse 400 "PROVIDER_NOT_RESOLVABLE")) _ h12 in
      let (u8, m, h14) =
        >>=-eq-ok
          (guard
            (not
              (leb pair_limit (or_zero q.pair_count_ok (pair_count q.now creds.0 provider before))))
            (refuse 429 "REFUND_RATE_LIMITED"))
          _ h13 in
      subst (IsRefundable q before) (ok-injective h14) (record {
        key = creds.1;
        hash = hash;
        claimed = ok_or-eq-ok _ _ c;
        stored = ok_or-eq-ok _ _ a;
        authentic = guard-eq-ok _ _ k;
        tx = tx;
        found = ok_or-eq-ok _ _ t;
        asked = ok_or-eq-ok _ _ b;
        own = guard-eq-ok _ _ o;
        charge = guard-eq-ok _ _ y;
        not_refunded = not-true (guard-eq-ok _ _ n);
        young = not-true (guard-eq-ok _ _ w);
        in_limit = counted q.agent_count_ok _ _ (below_limit (guard-eq-ok _ _ l));
        provider = ok_or-eq-ok _ _ v;
        in_pair_limit = counted q.pair_count_ok _ _ (below_limit (guard-eq-ok _ _ m));
        amount = refl;
        open_now = refl;
        dated = refl;
      })

  insert-ok :
      (insert_ok : Bool) (r row : Refund) (t : Table)
      → (insert insert_ok r t).0 ≡ ok row
      → (r ≡ row)
        × (any (λ s. s.transaction_id == r.transaction_id) t ≡ false)
        × ((insert insert_ok r t).1 ≡ r ∷ t)
  unfolding insert
  insert-ok insert_ok r row t h =
      elim (Bool-cases (any (λ s. s.transaction_id == r.transaction_id) t)) [
        | inl e ↦ absurd (err_ne_ok (rw (e, insert) at h))
        | inr e ↦ elim (Bool-cases insert_ok) [
          | inl i ↦ (ok-injective (rw (e, i, insert) at h), e, rw (e, i, insert) refl)
          | inr i ↦ absurd (err_ne_ok (rw (e, i, insert) at h))
        ]
      ]

  attempt-ok :
      (insert_ok : Bool) (checked : Result Refusal Refund) (row : Refund) (t : Table)
      → (attempt bcrypt_verify insert_ok t checked).0 ≡ ok row
      → (checked ≡ ok row)
        × (any (λ s. s.transaction_id == row.transaction_id) t ≡ false)
        × ((attempt bcrypt_verify insert_ok t checked).1 ≡ row ∷ t)
  unfolding attempt
  attempt-ok insert_ok (err e) row t h = absurd (cc)
  attempt-ok insert_ok (ok r) row t h =
      let (same, new, added) = insert-ok insert_ok r row t h in
      subst
        (λ (x : Refund).
          (◌≡◌ {A = Result Refusal Refund} (ok r) (ok x))
          × (any (λ s. s.transaction_id == x.transaction_id) t ≡ false)
          × ((attempt bcrypt_verify insert_ok t (ok r)).1 ≡ x ∷ t))
        same (refl, new, added)

  -- A request that is accepted is of an agent whose key is right, for its own charge, not refunded and at
  -- most 30 days old, and inside each limit of the last day whose count could be read; its transaction has
  -- no refund in the table that the insertion meets, and the open refund is added to that table.
  pub request_refund-IsRefundable :
      (q : RequestReadings) (before t : Table) (row : Refund)
      → (request_refund bcrypt_verify q before t).0 ≡ ok row
      → IsRefundable q before row
        × (any (λ s. s.transaction_id == row.transaction_id) t ≡ false)
        × ((request_refund bcrypt_verify q before t).1 ≡ row ∷ t)
  unfolding request_refund
  request_refund-IsRefundable q before t row h =
      let (checked, new, added) =
        attempt-ok q.insert_ok (check_refund bcrypt_verify q before) row t h in
      (check_refund-IsRefundable q before row checked, new, added)
