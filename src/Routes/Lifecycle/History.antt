-- ===== src/Routes/Lifecycle/History.antt =====
-- src/routes/manifests.rs: what the handlers make of the table, in any order.
use Prim.Native.String.{String}
use jecp_server.Prelude.{
  ℕ, ◌≡◌, refl, sym, subst, ◌⊎◌, inl, inr, Bool, true, false, map, Text, codes, text_eq, Bool-cases,
  Result-cases,
}
use jecp_server.Auth.Provider.{ProviderRow}
use jecp_server.Services.Relayer.BigEndian.{Bytes}
use jecp_server.Services.Capabilities.{
  CapabilityRow, Capabilities, Store, publish_manifest, submitted, active, promote_row,
  promote_capability, sunset_row, sunset_capability,
}
use jecp_server.Routes.Lifecycle.{
  Call, check_promotion, promote, on_checked, handle_promote, check_sunset, end, handle_sunset,
}
use jecp_server.Services.Capabilities.Rows.{
  IsKeyed, IsEnded, IsChange, map-IsEnded, map-IsKeyed, promote_row-IsChange, sunset_row-IsChange,
  publish_manifest-IsKeyed, publish_manifest-IsEnded,
}

-- The rows are as they were, or changed with those that were over as they were.
abbrev IsChanged : Capabilities → Capabilities → Type 0
IsChanged rows after =
    (after ≡ rows) ⊎ ((f : CapabilityRow → CapabilityRow) × IsChange f × (after ≡ map f rows))

changed-IsKeyed : (rows after : Capabilities) → IsChanged rows after → IsKeyed rows → IsKeyed after
changed-IsKeyed rows after (inl e) h = subst IsKeyed (sym e) h
changed-IsKeyed rows after (inr (f, change, e)) h =
    subst IsKeyed (sym e) (map-IsKeyed f change rows h)

changed-IsEnded :
    (id at : ℕ) (rows after : Capabilities)
    → IsChanged rows after
    → IsEnded id at rows
    → IsEnded id at after
changed-IsEnded id at rows after (inl e) h = subst (IsEnded id at) (sym e) h
changed-IsEnded id at rows after (inr (f, change, e)) h =
    subst (IsEnded id at) (sym e) (map-IsEnded f change id at rows h)

promote_capability-IsChanged :
    (answers : Bool) (id : ℕ) (s : Store)
    → IsChanged s.capabilities (promote_capability answers id s).1.capabilities
unfolding promote_capability
promote_capability-IsChanged true id s = inr (promote_row id, promote_row-IsChange id, refl)
promote_capability-IsChanged false id s = inl refl

sunset_capability-IsChanged :
    (answers : Bool) (now id provider_id : ℕ) (s : Store)
    → IsChanged s.capabilities (sunset_capability answers now id provider_id s).1.capabilities
unfolding sunset_capability
sunset_capability-IsChanged true now id provider_id s =
    inr (sunset_row now id, sunset_row-IsChange now id, refl)
sunset_capability-IsChanged false now id provider_id s = inl refl

module _ (trim : Text → Text) (bcrypt_verify : Text → Text → Bool)
    (derive_capability_id : String → String → String → Bytes) where
  promote-IsChanged :
      (c : Call) (id : ℕ) (found : ProviderRow × CapabilityRow) (s : Store)
      → IsChanged s.capabilities
          (promote trim bcrypt_verify derive_capability_id c id found s).1.capabilities
  unfolding promote
  promote-IsChanged c id found s = elim (Bool-cases (text_eq (found.1).status active)) [
    | inl e ↦ rw e (inl refl)
    | inr e ↦ elim (Bool-cases (text_eq (found.1).status submitted)) [
      | inl d ↦ rw (e, d) (promote_capability-IsChanged c.update_ok id s)
      | inr d ↦ rw (e, d) (inl refl)
    ]
  ]

  end-IsChanged :
      (c : Call) (id : ℕ) (found : ProviderRow × CapabilityRow) (s : Store)
      → IsChanged s.capabilities
          (end trim bcrypt_verify derive_capability_id c id found s).1.capabilities
  unfolding end
  end-IsChanged c id found s = elim (Bool-cases (text_eq (found.1).status (codes "sunset"))) [
    | inl e ↦ rw e (inl refl)
    | inr e ↦ rw e (sunset_capability-IsChanged c.update_ok c.now id (found.0).id s)
  ]

  handle_promote-IsChanged :
      (c : Call) (id : ℕ) (before : Capabilities) (s : Store)
      → IsChanged s.capabilities
          (handle_promote trim bcrypt_verify derive_capability_id c id before s).1.capabilities
  unfolding handle_promote on_checked
  handle_promote-IsChanged c id before s =
      elim (Result-cases (check_promotion trim bcrypt_verify derive_capability_id c id before)) [
        | inl (found, e) ↦ rw e (promote-IsChanged c id found s)
        | inr (why, e) ↦ rw e (inl refl)
      ]

  handle_sunset-IsChanged :
      (c : Call) (id : ℕ) (before : Capabilities) (s : Store)
      → IsChanged s.capabilities
          (handle_sunset trim bcrypt_verify derive_capability_id c id before s).1.capabilities
  unfolding handle_sunset on_checked
  handle_sunset-IsChanged c id before s =
      elim (Result-cases (check_sunset trim bcrypt_verify derive_capability_id c id before)) [
        | inl (found, e) ↦ rw e (end-IsChanged c id found s)
        | inr (why, e) ↦ rw e (inl refl)
      ]

  -- What publications, promotions and sunsets make of a store; each reads any rows before its statement.
  pub data Steps (s : Store) : Store → Type 0 where
    done : Steps s s
    publication :
        {t : Store} (answers : Bool) (new : CapabilityRow) (fully_verified : Bool)
        → Steps s t
        → Steps s (publish_manifest answers new fully_verified t).1
    promotion :
        {t : Store} (c : Call) (id : ℕ) (before : Capabilities)
        → Steps s t
        → Steps s (handle_promote trim bcrypt_verify derive_capability_id c id before t).1
    ending :
        {t : Store} (c : Call) (id : ℕ) (before : Capabilities)
        → Steps s t
        → Steps s (handle_sunset trim bcrypt_verify derive_capability_id c id before t).1

  pub Steps-IsKeyed : (s t : Store) → Steps s t → IsKeyed s.capabilities → IsKeyed t.capabilities
  Steps-IsKeyed s t done h = h
  Steps-IsKeyed s t (publication {t = u} answers new fully_verified before) h =
      publish_manifest-IsKeyed answers new fully_verified u (Steps-IsKeyed s u before h)
  Steps-IsKeyed s t (promotion {t = u} c id read before) h =
      changed-IsKeyed u.capabilities _ (handle_promote-IsChanged c id read u)
        (Steps-IsKeyed s u before h)
  Steps-IsKeyed s t (ending {t = u} c id read before) h =
      changed-IsKeyed u.capabilities _ (handle_sunset-IsChanged c id read u)
        (Steps-IsKeyed s u before h)

  pub Steps-IsEnded :
      (id at : ℕ) (s t : Store)
      → Steps s t
      → IsEnded id at s.capabilities
      → IsEnded id at t.capabilities
  Steps-IsEnded id at s t done h = h
  Steps-IsEnded id at s t (publication {t = u} answers new fully_verified before) h =
      publish_manifest-IsEnded id at answers new fully_verified u (Steps-IsEnded id at s u before h)
  Steps-IsEnded id at s t (promotion {t = u} c j read before) h =
      changed-IsEnded id at u.capabilities _ (handle_promote-IsChanged c j read u)
        (Steps-IsEnded id at s u before h)
  Steps-IsEnded id at s t (ending {t = u} c j read before) h =
      changed-IsEnded id at u.capabilities _ (handle_sunset-IsChanged c j read u)
        (Steps-IsEnded id at s u before h)
