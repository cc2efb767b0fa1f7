-- ===== src/Services/Reconciler/Rows.antt =====
-- The rows that a pass selects: each is a due row of the table, and no id comes twice.
use jecp_server.Prelude.{
  ℕ, ◌≡◌, refl, Bool, true, false, [], ◌∷◌, All, All-map, retain, take, zero, suc, arith, ltb, ◌==◌,
  Bool-cases, inl, inr,
}
use jecp_server.Services.Settlements.{
  X402Settlement, Table, is_due, insert_by_age, sort_by_age, attested_older_than,
}

abbrev pub DistinctIds : Table → Type 0
DistinctIds [] = Unit
DistinctIds (r ∷ t) = All (λ s. (s.id == r.id) ≡ false) t × DistinctIds t

-- The row is the only one of the table with its id.
abbrev pub IsOnly : Table → X402Settlement → Type 0
IsOnly t s = All (λ r. (r.id == s.id) ≡ true → r ≡ s) t

module _ (P : X402Settlement → Type 0) where
  All-retain : (p : X402Settlement → Bool) (t : Table) → All P t → All P (retain p t)
  All-retain p [] h = tt
  All-retain p (r ∷ t) h = elim (Bool-cases (p r)) [
    | inl e ↦ rw e (h.0, All-retain p t h.1)
    | inr e ↦ rw e (All-retain p t h.1)
  ]

  All-take : (n : ℕ) (t : Table) → All P t → All P (take n t)
  All-take zero t h = tt
  All-take (suc n) [] h = tt
  All-take (suc n) (r ∷ t) h = (h.0, All-take n t h.1)

  All-insert_by_age : (r : X402Settlement) (t : Table) → P r → All P t → All P (insert_by_age r t)
  unfolding insert_by_age
  All-insert_by_age r [] p h = (p, tt)
  All-insert_by_age r (s ∷ t) p h = elim (Bool-cases (ltb s.settled_at r.settled_at)) [
    | inl e ↦ rw e (h.0, All-insert_by_age r t p h.1)
    | inr e ↦ rw e (p, h)
  ]

  All-sort_by_age : (t : Table) → All P t → All P (sort_by_age t)
  unfolding sort_by_age
  All-sort_by_age [] h = tt
  All-sort_by_age (r ∷ t) h = All-insert_by_age r (sort_by_age t) h.0 (All-sort_by_age t h.1)

  -- What holds of every row holds of every selected one.
  pub All-attested_older_than :
      (now older_than limit : ℕ) (t : Table)
      → All P t
      → All P (attested_older_than now older_than limit t)
  unfolding attested_older_than
  All-attested_older_than now older_than limit t h =
      All-take limit _ (All-sort_by_age _ (All-retain (is_due now older_than) t h))

retain-due : (p : X402Settlement → Bool) (t : Table) → All (λ r. p r ≡ true) (retain p t)
retain-due p [] = tt
retain-due p (r ∷ t) = elim (Bool-cases (p r)) [
  | inl e ↦ rw e (e, retain-due p t)
  | inr e ↦ rw e (retain-due p t)
]

pub attested_older_than-due :
    (now older_than limit : ℕ) (t : Table)
    → All (λ r. is_due now older_than r ≡ true) (attested_older_than now older_than limit t)
unfolding attested_older_than
attested_older_than-due now older_than limit t =
    All-take (λ r. is_due now older_than r ≡ true) limit _
      (All-sort_by_age (λ r. is_due now older_than r ≡ true) _
        (retain-due (is_due now older_than) t))

DistinctIds-retain :
    (p : X402Settlement → Bool) (t : Table) → DistinctIds t → DistinctIds (retain p t)
DistinctIds-retain p [] h = tt
DistinctIds-retain p (r ∷ t) h = elim (Bool-cases (p r)) [
  | inl e ↦ rw e (All-retain (λ s. (s.id == r.id) ≡ false) p t h.0, DistinctIds-retain p t h.1)
  | inr e ↦ rw e (DistinctIds-retain p t h.1)
]

DistinctIds-take : (n : ℕ) (t : Table) → DistinctIds t → DistinctIds (take n t)
DistinctIds-take zero t h = tt
DistinctIds-take (suc n) [] h = tt
DistinctIds-take (suc n) (r ∷ t) h =
    (All-take (λ s. (s.id == r.id) ≡ false) n t h.0, DistinctIds-take n t h.1)

DistinctIds-insert_by_age :
    (r : X402Settlement) (t : Table)
    → All (λ s. (s.id == r.id) ≡ false) t
    → DistinctIds t
    → DistinctIds (insert_by_age r t)
unfolding insert_by_age
DistinctIds-insert_by_age r [] a h = (tt, tt)
DistinctIds-insert_by_age r (s ∷ t) a h = elim (Bool-cases (ltb s.settled_at r.settled_at)) [
  | inl e ↦ rw e (
    All-insert_by_age (λ u. (u.id == s.id) ≡ false) r t (ground (arith, a.0)) h.0,
    DistinctIds-insert_by_age r t a.1 h.1,
  )
  | inr e ↦ rw e (a, h)
]

DistinctIds-sort_by_age : (t : Table) → DistinctIds t → DistinctIds (sort_by_age t)
unfolding sort_by_age
DistinctIds-sort_by_age [] h = tt
DistinctIds-sort_by_age (r ∷ t) h =
    DistinctIds-insert_by_age r (sort_by_age t)
      (All-sort_by_age (λ s. (s.id == r.id) ≡ false) t h.0) (DistinctIds-sort_by_age t h.1)

pub DistinctIds-attested_older_than :
    (now older_than limit : ℕ) (t : Table)
    → DistinctIds t
    → DistinctIds (attested_older_than now older_than limit t)
unfolding attested_older_than
DistinctIds-attested_older_than now older_than limit t h =
    DistinctIds-take limit _
      (DistinctIds-sort_by_age _ (DistinctIds-retain (is_due now older_than) t h))

-- In a table without a repeated id each row is the only one with its own.
pub DistinctIds-IsOnly : (t : Table) → DistinctIds t → All (IsOnly t) t
DistinctIds-IsOnly [] h = tt
DistinctIds-IsOnly (r ∷ t) h = (
  ((λ _. refl), All-map t (λ s e f. absurd (ground arith)) h.0),
  both t h.0 (DistinctIds-IsOnly t h.1),
)
  where
    both :
        (u : Table)
        → All (λ s. (s.id == r.id) ≡ false) u
        → All (IsOnly t) u
        → All (IsOnly (r ∷ t)) u
    both [] a o = tt
    both (s ∷ u) a o = (((λ e. absurd (ground (arith, a.0))), o.0), both u a.1 o.1)
