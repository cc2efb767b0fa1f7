-- ===== src/Routes/Lifecycle/Ended.antt =====
-- src/routes/manifests.rs: what stays of a capability that was sunset.
use Prim.Native.String.{String}
use jecp_server.Prelude.{
  ℕ, ◌≤◌, ◌≡◌, refl, ◌⊎◌, inl, inr, Bool, true, false, some, [], ◌∷◌, Text, codes, text_eq, ok, err,
  leb, arith, Bool-cases, ok-injective, Result-cases,
}
use jecp_server.Auth.Provider.{ProviderRow, or_db_error}
use jecp_server.Services.Relayer.BigEndian.{Bytes}
use jecp_server.Services.Capabilities.{CapabilityRow, Capabilities, Store, sunset_capability}
use jecp_server.Routes.InvokeChecks.{refused, check_sunset as check_served}
use jecp_server.Routes.Lifecycle.{Call, on_checked, check_sunset, end, handle_sunset}
use jecp_server.Services.Capabilities.Rows.{has_id, IsKeyed, AreSunset, IsEnded, sunset_row-IsEnded}
use jecp_server.Routes.Lifecycle.History.{Steps, Steps-IsKeyed, Steps-IsEnded}

-- At that time, the test for a sunset on the JSON path refuses every row of the capability.
abbrev pub IsGone : ℕ → ℕ → Capabilities → Type 0
IsGone later id [] = Unit
IsGone later id (row ∷ rows) =
    ((has_id id row ≡ false)
      ⊎ (check_served later row.sunset_at ≡ err (refused 410 "CAPABILITY_DEPRECATED")))
    × IsGone later id rows

sunset-check_served :
    (later at : ℕ)
    → at ≤ later
    → check_served later (some at) ≡ err (refused 410 "CAPABILITY_DEPRECATED")
unfolding check_served
sunset-check_served later at h = let over : leb at later ≡ true = ground arith in rw over refl

sunset-IsGone :
    (later id at : ℕ) (rows : Capabilities)
    → at ≤ later
    → AreSunset id at rows
    → IsGone later id rows
sunset-IsGone later id at [] h sunset = tt
sunset-IsGone later id at (r ∷ rows) h (inl other, rest) =
    (inl other, sunset-IsGone later id at rows h rest)
sunset-IsGone later id at (r ∷ rows) h (inr (status, time), rest) =
    (inr (rw time (sunset-check_served later at h)), sunset-IsGone later id at rows h rest)

module _ (trim : Text → Text) (bcrypt_verify : Text → Text → Bool)
    (derive_capability_id : String → String → String → Bytes) where
  end-IsEnded :
      (c : Call) (id : ℕ) (found : ProviderRow × CapabilityRow) (s : Store)
      → (end trim bcrypt_verify derive_capability_id c id found s).0 ≡ ok true
      → IsKeyed s.capabilities
      → IsEnded id c.now (end trim bcrypt_verify derive_capability_id c id found s).1.capabilities
  unfolding end sunset_capability or_db_error
  end-IsEnded c id found s answered keyed =
      elim (Bool-cases (text_eq (found.1).status (codes "sunset"))) [
        | inl e ↦ absurd (cc (rw e at answered))
        | inr e ↦ elim (Bool-cases c.update_ok) [
          | inl u ↦
              rw (e, u)
                (sunset_row-IsEnded c.now id s.capabilities keyed
                  (ok-injective (rw (e, u) at answered)))
          | inr u ↦ absurd (cc (rw (e, u) at answered))
        ]
      ]

  -- When the sunset of a capability is answered with a change, in a store that publications, promotions
  -- and sunsets made, then in every store that they make of it later the capability has a row, and every
  -- row of it has the status sunset and the time of that sunset; at that time or later, by the same
  -- clock, the test for a sunset on the JSON path refuses every such row with 410.
  pub handle_sunset-IsEnded :
      (c : Call) (id : ℕ) (before : Capabilities) (t u : Store) (later : ℕ)
      → Steps trim bcrypt_verify derive_capability_id (record { capabilities = []; history = [] }) t
      → (handle_sunset trim bcrypt_verify derive_capability_id c id before t).0 ≡ ok true
      → Steps trim bcrypt_verify derive_capability_id
          (handle_sunset trim bcrypt_verify derive_capability_id c id before t).1
          u
      → c.now ≤ later
      → IsEnded id c.now u.capabilities × IsGone later id u.capabilities
  unfolding handle_sunset on_checked
  handle_sunset-IsEnded c id before t u later past answered after in_time =
      let keyed = Steps-IsKeyed trim bcrypt_verify derive_capability_id _ t past tt in
      let ended =
        Steps-IsEnded trim bcrypt_verify derive_capability_id id c.now _ u after
          (elim (Result-cases (check_sunset trim bcrypt_verify derive_capability_id c id before)) [
            | inl (found, e) ↦
                rw (e, handle_sunset) (end-IsEnded c id found t (rw e at answered) keyed)
            | inr (why, e) ↦ absurd (cc (rw e at answered))
          ]) in
      (ended, sunset-IsGone later id c.now u.capabilities in_time ended.1)
