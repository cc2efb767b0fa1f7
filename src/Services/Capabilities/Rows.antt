-- ===== src/Services/Capabilities/Rows.antt =====
-- src/services/database.rs: what the statements on capabilities leave of the rows.
use jecp_server.Prelude.{
  ℕ, ◌≡◌, refl, sym, ap, subst, ◌∙◌, ◌⊎◌, inl, inr, Bool, true, false, none, some, [], ◌∷◌, map,
  Text, codes, text_eq, text_eq→eq, any, ◌==◌, arith, Bool-cases,
}
use jecp_server.Services.Capabilities.{
  CapabilityRow, Capabilities, Store, is_over, clashes, initial_status, publish_manifest,
  is_submitted, submitted, promote_row, is_open, sunset_row,
}

abbrev pub has_id : ℕ → CapabilityRow → Bool
has_id id row = row.id == id

-- No two rows have one id.
abbrev pub IsKeyed : Capabilities → Type 0
IsKeyed [] = Unit
IsKeyed (row ∷ rows) = (any (has_id row.id) rows ≡ false) × IsKeyed rows

-- A row of another capability, or one with the status of a sunset and its time.
abbrev pub IsSunset : ℕ → ℕ → CapabilityRow → Type 0
IsSunset id at r = (has_id id r ≡ false) ⊎ ((r.status ≡ codes "sunset") × (r.sunset_at ≡ some at))

abbrev pub AreSunset : ℕ → ℕ → Capabilities → Type 0
AreSunset id at [] = Unit
AreSunset id at (row ∷ rows) = IsSunset id at row × AreSunset id at rows

-- The capability is in the table, and every row of it has the status of a sunset and its time.
abbrev pub IsEnded : ℕ → ℕ → Capabilities → Type 0
IsEnded id at rows = (any (has_id id) rows ≡ true) × AreSunset id at rows

-- Rows that keep their ids, and what is over as it is.
pub record IsChange (f : CapabilityRow → CapabilityRow) : Type 0 where
  pub same_id : (r : CapabilityRow) → (f r).id ≡ r.id
  pub keeps_over : (r : CapabilityRow) → is_over r.status ≡ true → f r ≡ r

sunset_over : (status : Text) → status ≡ codes "sunset" → is_over status ≡ true
sunset_over status h = rw h (unfold text_eq in refl)

module _ (f : CapabilityRow → CapabilityRow) (change : IsChange f) where
  pub any-has_id-map :
      (id : ℕ) (rows : Capabilities) → any (has_id id) (map f rows) ≡ any (has_id id) rows
  any-has_id-map id [] = refl
  any-has_id-map id (r ∷ rows) = rw (any-has_id-map id rows, change.same_id r) refl

  change-IsSunset : (id at : ℕ) (r : CapabilityRow) → IsSunset id at r → IsSunset id at (f r)
  change-IsSunset id at r (inl other) = inl (ap (λ n. n == id) (change.same_id r) ∙ other)
  change-IsSunset id at r (inr (status, time)) =
      subst (IsSunset id at) (sym (change.keeps_over r (sunset_over r.status status)))
        (inr (status, time))

  map-AreSunset :
      (id at : ℕ) (rows : Capabilities) → AreSunset id at rows → AreSunset id at (map f rows)
  map-AreSunset id at [] h = tt
  map-AreSunset id at (r ∷ rows) h = (change-IsSunset id at r h.0, map-AreSunset id at rows h.1)

  pub map-IsEnded :
      (id at : ℕ) (rows : Capabilities) → IsEnded id at rows → IsEnded id at (map f rows)
  map-IsEnded id at rows h = (any-has_id-map id rows ∙ h.0, map-AreSunset id at rows h.1)

  pub map-IsKeyed : (rows : Capabilities) → IsKeyed rows → IsKeyed (map f rows)
  map-IsKeyed [] h = tt
  map-IsKeyed (r ∷ rows) h =
      (rw (change.same_id r) (any-has_id-map r.id rows ∙ h.0), map-IsKeyed rows h.1)

submitted_open : (status : Text) → text_eq status submitted ≡ true → is_over status ≡ false
submitted_open status h = rw (text_eq→eq status submitted h) (unfold text_eq in refl)

is_open_over : (id : ℕ) (r : CapabilityRow) → is_over r.status ≡ true → is_open id r ≡ false
unfolding is_open
is_open_over id r h = elim (Bool-cases (r.id == id)) [ inl e ↦ rw (e, h) refl | inr e ↦ rw e refl ]

promote_row-id : (id : ℕ) (r : CapabilityRow) → (promote_row id r).id ≡ r.id
unfolding promote_row
promote_row-id id r = elim (Bool-cases (is_submitted id r)) [
  | inl e ↦ rw e refl
  | inr e ↦ rw e refl
]

promote_row_over : (id : ℕ) (r : CapabilityRow) → is_over r.status ≡ true → promote_row id r ≡ r
unfolding promote_row is_submitted
promote_row_over id r over = elim (Bool-cases (text_eq r.status submitted)) [
  | inl e ↦ absurd (cc (sym over ∙ submitted_open r.status e))
  | inr e ↦ elim (Bool-cases (r.id == id)) [ inl i ↦ rw (i, e) refl | inr i ↦ rw i refl ]
]

pub promote_row-IsChange : (id : ℕ) → IsChange (promote_row id)
promote_row-IsChange id = record { same_id = promote_row-id id; keeps_over = promote_row_over id }

sunset_row-id : (now id : ℕ) (r : CapabilityRow) → (sunset_row now id r).id ≡ r.id
unfolding sunset_row
sunset_row-id now id r = elim (Bool-cases (is_open id r)) [ inl e ↦ rw e refl | inr e ↦ rw e refl ]

sunset_row_over :
    (now id : ℕ) (r : CapabilityRow) → is_over r.status ≡ true → sunset_row now id r ≡ r
unfolding sunset_row
sunset_row_over now id r over = rw (is_open_over id r over) refl

pub sunset_row-IsChange : (now id : ℕ) → IsChange (sunset_row now id)
sunset_row-IsChange now id = record {
  same_id = sunset_row-id now id;
  keeps_over = sunset_row_over now id;
}

sunset_row-IsSunset :
    (now id : ℕ) (r : CapabilityRow)
    → (is_open id r ≡ true) ⊎ (has_id id r ≡ false)
    → IsSunset id now (sunset_row now id r)
unfolding sunset_row
sunset_row-IsSunset now id r (inl opened) = rw opened (inr (refl, refl))
sunset_row-IsSunset now id r (inr other) = inl (ap (λ n. n == id) (sunset_row-id now id r) ∙ other)

none-AreSunset :
    (now id : ℕ) (rows : Capabilities)
    → any (has_id id) rows ≡ false
    → AreSunset id now (map (sunset_row now id) rows)
none-AreSunset now id [] h = tt
none-AreSunset now id (r ∷ rows) h = elim (Bool-cases (r.id == id)) [
  | inl e ↦ absurd (cc (rw e at h))
  | inr e ↦ (sunset_row-IsSunset now id r (inr e), none-AreSunset now id rows (rw e at h))
]

any_open-has_id :
    (id : ℕ) (rows : Capabilities) → any (is_open id) rows ≡ true → any (has_id id) rows ≡ true
unfolding is_open
any_open-has_id id [] h = h
any_open-has_id id (r ∷ rows) h = elim (Bool-cases (r.id == id)) [
  | inl e ↦ rw e refl
  | inr e ↦ rw e (any_open-has_id id rows (rw (e, is_open) at h))
]

-- No other row has the id of one that has it.
keyed_other :
    (id : ℕ) (r : CapabilityRow) (rows : Capabilities)
    → IsKeyed (r ∷ rows)
    → has_id id r ≡ true
    → any (has_id id) rows ≡ false
keyed_other id r rows keyed h =
    let same : r.id ≡ id = ground arith in subst (λ n. any (has_id n) rows ≡ false) same keyed.0

open-has_id : (id : ℕ) (r : CapabilityRow) → is_open id r ≡ true → has_id id r ≡ true
unfolding is_open
open-has_id id r h = elim (Bool-cases (r.id == id)) [ inl e ↦ e | inr e ↦ absurd (cc (rw e at h)) ]

-- The statement writes every row of a capability that has an open one.
pub sunset_row-AreSunset :
    (now id : ℕ) (rows : Capabilities)
    → IsKeyed rows
    → any (is_open id) rows ≡ true
    → AreSunset id now (map (sunset_row now id) rows)
sunset_row-AreSunset now id [] keyed h = tt
sunset_row-AreSunset now id (r ∷ rows) keyed h = elim (Bool-cases (is_open id r)) [
  | inl e ↦ (
    sunset_row-IsSunset now id r (inl e),
    none-AreSunset now id rows (keyed_other id r rows keyed (open-has_id id r e)),
  )
  | inr e ↦
      let rest : any (is_open id) rows ≡ true = rw e at h in
      elim (Bool-cases (has_id id r)) [
        | inl own ↦
            absurd (cc (sym (any_open-has_id id rows rest) ∙ keyed_other id r rows keyed own))
        | inr other ↦ (
          sunset_row-IsSunset now id r (inr other),
          sunset_row-AreSunset now id rows keyed.1 rest,
        )
      ]
]

pub sunset_row-IsEnded :
    (now id : ℕ) (rows : Capabilities)
    → IsKeyed rows
    → any (is_open id) rows ≡ true
    → IsEnded id now (map (sunset_row now id) rows)
sunset_row-IsEnded now id rows keyed h = (
  any-has_id-map (sunset_row now id) (sunset_row-IsChange now id) id rows
      ∙ any_open-has_id id rows h,
  sunset_row-AreSunset now id rows keyed h,
)

-- A new row has a new id.
clashes-has_id :
    (new : CapabilityRow) (rows : Capabilities)
    → any (clashes new) rows ≡ false
    → any (has_id new.id) rows ≡ false
unfolding clashes
clashes-has_id new [] h = refl
clashes-has_id new (r ∷ rows) h = elim (Bool-cases (clashes new r)) [
  | inl e ↦ absurd (cc (rw (e, clashes) at h))
  | inr e ↦ elim (Bool-cases (r.id == new.id)) [
    | inl i ↦ absurd (cc (rw (i, clashes) at e))
    | inr i ↦ rw i (clashes-has_id new rows (rw e at h))
  ]
]

publish_manifest-cases :
    (answers : Bool) (new : CapabilityRow) (fully_verified : Bool) (s : Store)
    → ((publish_manifest answers new fully_verified s).1.capabilities ≡ s.capabilities)
      ⊎ ((any (clashes new) s.capabilities ≡ false)
          × ((publish_manifest answers new fully_verified s).1.capabilities
              ≡ record new { status = initial_status fully_verified; sunset_at = none }
                ∷ s.capabilities))
unfolding publish_manifest
publish_manifest-cases answers new fully_verified s =
    elim (Bool-cases (any (clashes new) s.capabilities)) [
      | inl e ↦ inl (rw e refl)
      | inr e ↦ elim (Bool-cases answers) [
        | inl a ↦ inr (e, rw (e, a) refl)
        | inr a ↦ inl (rw (e, a) refl)
      ]
    ]

pub publish_manifest-IsKeyed :
    (answers : Bool) (new : CapabilityRow) (fully_verified : Bool) (s : Store)
    → IsKeyed s.capabilities
    → IsKeyed (publish_manifest answers new fully_verified s).1.capabilities
publish_manifest-IsKeyed answers new fully_verified s h =
    elim (publish_manifest-cases answers new fully_verified s) [
      | inl same ↦ subst IsKeyed (sym same) h
      | inr (fresh, added) ↦ subst IsKeyed (sym added) (clashes-has_id new s.capabilities fresh, h)
    ]

pub publish_manifest-IsEnded :
    (id at : ℕ) (answers : Bool) (new : CapabilityRow) (fully_verified : Bool) (s : Store)
    → IsEnded id at s.capabilities
    → IsEnded id at (publish_manifest answers new fully_verified s).1.capabilities
publish_manifest-IsEnded id at answers new fully_verified s h =
    elim (publish_manifest-cases answers new fully_verified s) [
      | inl same ↦ subst (IsEnded id at) (sym same) h
      | inr (fresh, added) ↦ subst (IsEnded id at) (sym added) (kept fresh)
    ]
  where
    row : CapabilityRow
    row = record new { status = initial_status fully_verified; sunset_at = none }

    kept : any (clashes new) s.capabilities ≡ false → IsEnded id at (row ∷ s.capabilities)
    kept fresh = elim (Bool-cases (new.id == id)) [
      | inl same ↦
          let ids : new.id ≡ id = ground arith in
          let one : any (has_id new.id) s.capabilities ≡ true = rw ids h.0 in
          absurd (cc (sym one ∙ clashes-has_id new s.capabilities fresh))
      | inr other ↦ (rw other h.0, (inl other, h.1))
    ]
