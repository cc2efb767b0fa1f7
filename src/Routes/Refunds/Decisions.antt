-- ===== src/Routes/Refunds/Decisions.antt =====
-- src/routes/refunds.rs: one decision after another, and two at once.
use mathlib.Core.List.{append_assoc}
use text.Mathlib.Text.{◌==◌ as str_eq}
use jecp_server.Prelude.{
  ℕ, ◌≡◌, ◌≢◌, refl, sym, ap, ◌∙◌, subst, inl, inr, Bool, true, false, Option, none, some, List, [],
  ◌∷◌, ◌++◌, Text, ◌==◌, Result, ok, err, guard, ok_or, >>=-eq-ok, ok_or-eq-ok, guard-eq-ok,
  Bool-cases, Result-cases,
}
use jecp_server.Routes.Refunds.{
  Refund, Table, DecisionReadings, Store, Effect, processed, notified, Refusal, refuse, find_refund,
  update_refund, set_approved, set_denied, if_updated, verify_provider_token, check_decision,
  apply_approval, apply_denial, decide, approve_refund, deny_refund,
}

true_ne_false : true ≢ false
true_ne_false e = cc

find-update :
    (id : ℕ) (f : Refund → Refund) (t : Table) (r : Refund)
    → ((x : Refund) → (f x).id ≡ x.id)
    → find_refund id t ≡ some r
    → find_refund id (update_refund id f t) ≡ some (f r)
unfolding find_refund update_refund
find-update id f [] r k h = cc
find-update id f (x ∷ t) r k h = elim (Bool-cases (x.id == id)) [
  | inl e ↦
      let same : ◌≡◌ {A = Option Refund} (some x) (some r) = rw (e, find_refund) at h in
      let hit : ((f x).id == id) ≡ true = ap (λ (n : ℕ). n == id) (k x) ∙ e in
      rw (e, hit) (ap (λ (o : Option Refund). elim o [ none ↦ none | some y ↦ some (f y) ]) same)
  | inr e ↦ rw (e, e) (find-update id f t r k (rw (e, find_refund) at h))
]

open_and_closed :
    (r s : Refund)
    → ◌≡◌ {A = Option Refund} (some r) (some s)
    → str_eq s.status "requested" ≡ true
    → str_eq r.status "requested" ≡ false
    → ⊥
open_and_closed r s e o c =
    let same : r ≡ s = cc in
    let closed : str_eq s.status "requested" ≡ false =
      subst (λ (x : Refund). str_eq x.status "requested" ≡ false) same c in
    true_ne_false (sym o ∙ closed)

module _ (bcrypt_verify : Text → Text → Bool) where
  -- The row is there, and is not open any more.
  abbrev pub IsClosed : ℕ → Table → Type 0
  IsClosed id t = (r : Refund) × (find_refund id t ≡ some r) × (str_eq r.status "requested" ≡ false)

  check_decision-ok :
      (d : DecisionReadings) (parsed : Bool) (id : ℕ) (before : Table)
      → check_decision bcrypt_verify d parsed id before ≡ ok tt
      → (r : Refund) × (find_refund id before ≡ some r) × (str_eq r.status "requested" ≡ true)
  unfolding check_decision
  check_decision-ok d parsed id before h0 =
      let (u, p, h1) = >>=-eq-ok (guard d.has_pool (refuse 500 "DB_UNAVAILABLE")) _ h0 in
      let (token, t, h2) = >>=-eq-ok (ok_or d.token (refuse 401 "AUTH_REQUIRED")) _ h1 in
      let (v, b, h3) = >>=-eq-ok (guard parsed (refuse 400 "INVALID_BODY")) _ h2 in
      let (r, f, h4) =
        >>=-eq-ok (ok_or (find_refund id before) (refuse 404 "REFUND_NOT_FOUND")) _ h3 in
      let (w, o, h5) =
        >>=-eq-ok
          (guard (verify_provider_token bcrypt_verify token (d.hash_of r.provider_id))
            (refuse 403 "FORBIDDEN"))
          _ h4 in
      (r, ok_or-eq-ok _ _ f, guard-eq-ok (str_eq r.status "requested") _ h5)

  check_decision_closed :
      (d : DecisionReadings) (parsed : Bool) (id : ℕ) (before : Table)
      → IsClosed id before
      → (e : Refusal) × (check_decision bcrypt_verify d parsed id before ≡ err e)
  check_decision_closed d parsed id before (r, f, c) =
      elim (Result-cases (check_decision bcrypt_verify d parsed id before)) [
        | inr refusal ↦ refusal
        | inl (u, e) ↦
            let (r', f', o) = check_decision-ok d parsed id before e in
            absurd (open_and_closed r r' (sym f ∙ f') o c)
      ]

  -- The two decisions, on the table that they read.
  pub data Decision : Type 0 where
    approve : Decision
    deny : Bool → Decision

  abbrev pub take_decision :
      Decision → DecisionReadings → ℕ → Table → Store → Result Refusal (Unit {0}) × Store
  take_decision approve d id before s = approve_refund bcrypt_verify d id before s
  take_decision (deny parsed) d id before s = deny_refund bcrypt_verify d parsed id before s

  abbrev parses : Decision → Bool
  parses approve = true
  parses (deny parsed) = parsed

  decide-ok :
      (checked : Result Refusal (Unit {0})) (done : Result Refusal (Unit {0}) × Store) (s : Store)
      → (decide bcrypt_verify checked done s).0 ≡ ok tt
      → (checked ≡ ok tt) × (decide bcrypt_verify checked done s ≡ done)
  unfolding decide
  decide-ok (err e) done s h = absurd (cc)
  decide-ok (ok u) done s h = (refl, refl)

  decide-err :
      (checked : Result Refusal (Unit {0})) (done : Result Refusal (Unit {0}) × Store) (s : Store)
      (e : Refusal)
      → checked ≡ err e
      → decide bcrypt_verify checked done s ≡ (err e, s)
  unfolding decide
  decide-err checked done s e h = rw (h, decide) refl

  -- A decision on a closed refund.
  take_decision_closed :
      (c : Decision) (d : DecisionReadings) (id : ℕ) (s : Store)
      → IsClosed id s.refunds
      → (e : Refusal) × (take_decision c d id s.refunds s ≡ (err e, s))
  unfolding approve_refund deny_refund
  take_decision_closed approve d id s h =
      let (e, he) = check_decision_closed d true id s.refunds h in
      (e, decide-err _ (apply_approval bcrypt_verify d id s) s e he)
  take_decision_closed (deny parsed) d id s h =
      let (e, he) = check_decision_closed d parsed id s.refunds h in
      (e, decide-err _ (apply_denial bcrypt_verify d id s) s e he)

  updated_rows : (b : Bool) (u t : Table) → b ≡ true → if_updated b u t ≡ u
  unfolding if_updated
  updated_rows true u t h = refl
  updated_rows false u t h = cc

  apply_approval-refunds :
      (d : DecisionReadings) (id : ℕ) (s : Store)
      → d.update_ok ≡ true
      → (apply_approval bcrypt_verify d id s).1.refunds ≡ update_refund id set_approved s.refunds
  unfolding apply_approval
  apply_approval-refunds d id s h =
      let u = updated_rows d.update_ok (update_refund id set_approved s.refunds) s.refunds h in
      elim (Bool-cases d.process_ok) [
        | inl e ↦ rw (e, apply_approval) u
        | inr e ↦ rw (e, apply_approval) u
      ]

  apply_denial-refunds :
      (d : DecisionReadings) (id : ℕ) (s : Store)
      → d.update_ok ≡ true
      → (apply_denial bcrypt_verify d id s).1.refunds
        ≡ update_refund id (set_denied d.now) s.refunds
  unfolding apply_denial
  apply_denial-refunds d id s h =
      updated_rows d.update_ok (update_refund id (set_denied d.now) s.refunds) s.refunds h

  updated-IsClosed :
      (id : ℕ) (f : Refund → Refund) (t : Table) (r : Refund)
      → ((x : Refund) → (f x).id ≡ x.id)
      → str_eq (f r).status "requested" ≡ false
      → find_refund id t ≡ some r
      → IsClosed id (update_refund id f t)
  updated-IsClosed id f t r k c h = (f r, find-update id f t r k h, c)

  take_decision-IsClosed :
      (c : Decision) (d : DecisionReadings) (id : ℕ) (s : Store)
      → d.update_ok ≡ true
      → (take_decision c d id s.refunds s).0 ≡ ok tt
      → IsClosed id (take_decision c d id s.refunds s).1.refunds
  unfolding approve_refund deny_refund set_approved set_denied
  take_decision-IsClosed approve d id s u h =
      let done = apply_approval bcrypt_verify d id s in
      let (checked, same) = decide-ok (check_decision bcrypt_verify d true id s.refunds) done s h in
      let (r, f, o) = check_decision-ok d true id s.refunds checked in
      subst (λ (x : Result Refusal (Unit {0}) × Store). IsClosed id x.1.refunds) (sym same)
        (subst (IsClosed id) (sym (apply_approval-refunds d id s u))
          (updated-IsClosed id set_approved s.refunds r (λ x. refl) refl f))
  take_decision-IsClosed (deny parsed) d id s u h =
      let done = apply_denial bcrypt_verify d id s in
      let (checked, same) =
        decide-ok (check_decision bcrypt_verify d parsed id s.refunds) done s h in
      let (r, f, o) = check_decision-ok d parsed id s.refunds checked in
      subst (λ (x : Result Refusal (Unit {0}) × Store). IsClosed id x.1.refunds) (sym same)
        (subst (IsClosed id) (sym (apply_denial-refunds d id s u))
          (updated-IsClosed id (set_denied d.now) s.refunds r (λ x. refl) refl f))

  -- Once a decision has gone through with its UPDATE, no decision on the refund that reads the table after it
  -- goes through, and the refusal changes nothing.
  pub take_decision_once :
      (c1 c2 : Decision) (d1 d2 : DecisionReadings) (id : ℕ) (s : Store)
      → d1.update_ok ≡ true
      → (take_decision c1 d1 id s.refunds s).0 ≡ ok tt
      → let s' = (take_decision c1 d1 id s.refunds s).1 in
        (e : Refusal) × (take_decision c2 d2 id s'.refunds s' ≡ (err e, s'))
  take_decision_once c1 c2 d1 d2 id s u h =
      take_decision_closed c2 d2 id (take_decision c1 d1 id s.refunds s).1
        (take_decision-IsClosed c1 d1 id s u h)

  decide_through :
      (checked : Result Refusal (Unit {0})) (done : Result Refusal (Unit {0}) × Store) (s : Store)
      → checked ≡ ok tt
      → decide bcrypt_verify checked done s ≡ done
  unfolding decide
  decide_through checked done s h = rw (h, decide) refl

  -- What is left when an approval and a denial both go through: the row is denied after it was processed.
  abbrev pub IsOverwritten : ℕ → List Effect → Result Refusal (Unit {0}) × Store → Type 0
  IsOverwritten id log x =
      (x.0 ≡ ok tt)
      × ((r : Refund) × (find_refund id x.1.refunds ≡ some r) × (str_eq r.status "denied" ≡ true))
      × (x.1.log ≡ log ++ (processed id ∷ notified id "approved" ∷ notified id "denied" ∷ []))

  apply_approval-log :
      (d : DecisionReadings) (id : ℕ) (s : Store)
      → d.process_ok ≡ true
      → (apply_approval bcrypt_verify d id s).1.log
        ≡ s.log ++ (processed id ∷ notified id "approved" ∷ [])
  unfolding apply_approval
  apply_approval-log d id s h = rw (h, apply_approval) refl

  denied-IsOverwritten :
      (d1 d2 : DecisionReadings) (id : ℕ) (s : Store) (r : Refund)
      → d1.update_ok ≡ true
      → d2.update_ok ≡ true
      → d1.process_ok ≡ true
      → find_refund id s.refunds ≡ some r
      → IsOverwritten id s.log
          (apply_denial bcrypt_verify d2 id (apply_approval bcrypt_verify d1 id s).1)
  unfolding apply_denial apply_approval set_denied set_approved
  denied-IsOverwritten d1 d2 id s r u1 u2 p f =
      let s1 = (apply_approval bcrypt_verify d1 id s).1 in
      let there : find_refund id s1.refunds ≡ some (set_approved r) =
        subst (λ (t : Table). find_refund id t ≡ some (set_approved r))
          (sym (apply_approval-refunds d1 id s u1))
          (find-update id set_approved s.refunds r (λ x. refl) f) in
      (
        refl,
        (
          set_denied d2.now (set_approved r),
          subst (λ (t : Table). find_refund id t ≡ some (set_denied d2.now (set_approved r)))
              (sym (apply_denial-refunds d2 id s1 u2))
              (find-update id (set_denied d2.now) s1.refunds (set_approved r) (λ x. refl) there),
          refl,
        ),
        ap (λ (l : List Effect). l ++ notified id "denied" ∷ []) (apply_approval-log d1 id s p)
            ∙ append_assoc s.log (processed id ∷ notified id "approved" ∷ [])
                (notified id "denied" ∷ []),
      )

  -- An approval and a denial that both read the table before either writes both go through: the funds are
  -- moved by `process_refund`, and the refund ends as denied.
  pub deny_refund_after_approval :
      (d1 d2 : DecisionReadings) (parsed : Bool) (id : ℕ) (s : Store)
      → d1.update_ok ≡ true
      → d2.update_ok ≡ true
      → d1.process_ok ≡ true
      → (approve_refund bcrypt_verify d1 id s.refunds s).0 ≡ ok tt
      → (deny_refund bcrypt_verify d2 parsed id s.refunds s).0 ≡ ok tt
      → IsOverwritten id s.log (
          deny_refund bcrypt_verify d2 parsed id s.refunds
            (approve_refund bcrypt_verify d1 id s.refunds s).1)
  unfolding approve_refund deny_refund
  deny_refund_after_approval d1 d2 parsed id s u1 u2 p h1 h2 =
      let approval = apply_approval bcrypt_verify d1 id s in
      let (c1, same1) =
        decide-ok (check_decision bcrypt_verify d1 true id s.refunds) approval s h1 in
      let (c2, same2) =
        decide-ok (check_decision bcrypt_verify d2 parsed id s.refunds)
          (apply_denial bcrypt_verify d2 id s) s h2 in
      let (r, f, o) = check_decision-ok d1 true id s.refunds c1 in
      rw (same1) (
        subst (IsOverwritten id s.log)
          (sym (
            decide_through (check_decision bcrypt_verify d2 parsed id s.refunds)
              (apply_denial bcrypt_verify d2 id approval.1) approval.1 c2))
          (denied-IsOverwritten d1 d2 id s r u1 u2 p f))
