-- ===== src/Auth/Provider/Keys.antt =====
-- src/routes/providers.rs: which keys let a provider in.
use text.Mathlib.Text.{◌==◌ as str_eq}
use jecp_server.Prelude.{
  ℕ, ◌<◌, ◌≡◌, refl, sym, ap, ◌∙◌, inl, inr, ◌⊎◌, Bool, true, false, not, Option, none, some, [],
  ◌∷◌, Text, codes, text_eq→eq, take, Result, ok, err, guard, ok_or, >>=-eq-ok, guard-eq-ok,
  ok_or-eq-ok, ok-injective, arith, ◌&&◌, Bool-cases, subst, ltb→lt,
}
use jecp_server.Services.Facilitator.{begins_with}
use jecp_server.Auth.Provider.{
  ProviderRow, Providers, ProviderAuthMatch, is_prefix, is_later, by_active_prefix,
  by_previous_prefix, first_where, grace_match, either_match, get_provider_for_auth, or_db_error,
  and_bearer, authenticate,
}

-- The row is in the table.
pub data IsIn (row : ProviderRow) : Providers → Type 0 where
  here : {rows : Providers} → IsIn row (row ∷ rows)
  there : {other : ProviderRow} {rows : Providers} → IsIn row rows → IsIn row (other ∷ rows)

first_where-IsIn :
    (p : ProviderRow → Bool) (t : Providers) (row : ProviderRow)
    → first_where p t ≡ some row
    → IsIn row t × (p row ≡ true)
unfolding first_where
first_where-IsIn p [] row h = absurd (cc)
first_where-IsIn p (other ∷ rows) row h = elim (Bool-cases (p other)) [
  | inl yes_here ↦
      let same = some-injective (rw yes_here at h) in
      subst (λ (r : ProviderRow). IsIn r (other ∷ rows) × (p r ≡ true)) same (here, yes_here)
  | inr not_here ↦
      let (later, holds) = first_where-IsIn p rows row (rw not_here at h) in (there later, holds)
]
  where
    some-injective : {a b : ProviderRow} → some a ≡ some b → a ≡ b
    some-injective e = cc

abbrev active_match : ProviderRow → ProviderAuthMatch
active_match row = record { provider = row; hash = row.api_key_hash; is_grace_match = false }

abbrev previous_match : ProviderRow → Text → ProviderAuthMatch
previous_match row hash = record { provider = row; hash = hash; is_grace_match = true }

match-injective :
    {a b : ProviderAuthMatch}
    → ◌≡◌ {A = Result (Unit {0}) (Option ProviderAuthMatch)} (ok (some a)) (ok (some b))
    → a ≡ b
match-injective e = cc

either_match-ok :
    (now_active in_grace : Option ProviderRow) (m : ProviderAuthMatch)
    → either_match now_active in_grace ≡ ok (some m)
    → ((row : ProviderRow) × (now_active ≡ some row) × (m ≡ active_match row))
      ⊎ ((row : ProviderRow) × (hash : Text) × (in_grace ≡ some row)
          × (row.previous_api_key_hash ≡ some hash)
          × (m ≡ previous_match row hash))
unfolding either_match grace_match
either_match-ok (some row) in_grace m h = inl (row, refl, sym (match-injective h))
either_match-ok none (some row) m h =
    let (hash, stored, h1) = >>=-eq-ok (ok_or row.previous_api_key_hash tt) _ h in
    inr (row, hash, refl, ok_or-eq-ok row.previous_api_key_hash _ stored, sym (match-injective h1))
either_match-ok none none m h = absurd (cc)

and-true : (a b : Bool) → (a && b) ≡ true → (a ≡ true) × (b ≡ true)
and-true a b h = ground arith

not-true : {b : Bool} → not b ≡ true → b ≡ false
not-true h = ground arith

by_active_prefix-true :
    (prefix : Text) (row : ProviderRow)
    → by_active_prefix prefix row ≡ true
    → (row.api_key_prefix ≡ prefix) × (str_eq row.status "deleted" ≡ false)
unfolding by_active_prefix
by_active_prefix-true prefix row h =
    let (same, alive) = and-true _ _ h in
    (text_eq→eq row.api_key_prefix prefix same, not-true alive)

is_later-true :
    (now : ℕ) (valid_until : Option ℕ)
    → is_later now valid_until ≡ true
    → (until : ℕ) × (valid_until ≡ some until) × (now < until)
unfolding is_later
is_later-true now none h = absurd (cc)
is_later-true now (some until) h = (until, refl, ltb→lt now until h)

by_previous_prefix-true :
    (now : ℕ) (prefix : Text) (row : ProviderRow)
    → by_previous_prefix now prefix row ≡ true
    → ((until : ℕ) × (row.previous_key_valid_until ≡ some until) × (now < until))
      × (str_eq row.status "deleted" ≡ false)
unfolding by_previous_prefix
by_previous_prefix-true now prefix row h =
    let (_, h1) = and-true (is_prefix prefix row.previous_api_key_prefix) _ h in
    let (later, alive) = and-true (is_later now row.previous_key_valid_until) _ h1 in
    (is_later-true now row.previous_key_valid_until later, not-true alive)

-- A key is the row's active one, or its previous one while that is valid.
pub data IsKeyOf (bcrypt_verify : Text → Text → Bool) (now : ℕ) (token : Text) (row : ProviderRow)
    : Type 0 where
  active :
      row.api_key_prefix ≡ take 12 token
      → bcrypt_verify token row.api_key_hash ≡ true
      → IsKeyOf bcrypt_verify now token row
  previous :
      (hash : Text) (until : ℕ)
      → row.previous_api_key_hash ≡ some hash
      → row.previous_key_valid_until ≡ some until
      → now < until
      → bcrypt_verify token hash ≡ true
      → IsKeyOf bcrypt_verify now token row

or_db_error-ok : {A : Type 0} (r : Result (Unit {0}) A) (a : A) → or_db_error r ≡ ok a → r ≡ ok a
unfolding or_db_error
or_db_error-ok (ok b) a h = cc
or_db_error-ok (err e) a h = absurd (cc)

module _ (trim : Text → Text) (bcrypt_verify : Text → Text → Bool) where
  -- What the lookup finds, if its hash verifies.
  IsMatch : ℕ → Text → Providers → ProviderAuthMatch → Type 0
  IsMatch now token t m =
      IsIn m.provider t
      × (str_eq m.provider.status "deleted" ≡ false)
      × (bcrypt_verify token m.hash ≡ true → IsKeyOf bcrypt_verify now token m.provider)

  get_provider_for_auth-IsMatch :
      (answers : Bool) (now : ℕ) (t : Providers) (token : Text) (m : ProviderAuthMatch)
      → get_provider_for_auth answers now t (take 12 token) ≡ ok (some m)
      → IsMatch now token t m
  unfolding get_provider_for_auth IsMatch
  get_provider_for_auth-IsMatch answers now t token m h =
      let (_, _, h1) = >>=-eq-ok (guard answers tt) _ h in
      found (
        either_match-ok (first_where (by_active_prefix (take 12 token)) t)
          (first_where (by_previous_prefix now (take 12 token)) t) m h1)
    where
      found :
          ((row : ProviderRow) × (first_where (by_active_prefix (take 12 token)) t ≡ some row)
              × (m ≡ active_match row))
            ⊎ ((row : ProviderRow) × (hash : Text) × (first_where
                    (by_previous_prefix now (take 12 token))
                    t
                  ≡ some row)
                × (row.previous_api_key_hash ≡ some hash)
                × (m ≡ previous_match row hash))
          → IsMatch now token t m
      found (inl (row, e, same)) =
          let (member, held) = first_where-IsIn (by_active_prefix (take 12 token)) t row e in
          let (prefix, alive) = by_active_prefix-true (take 12 token) row held in
          subst (IsMatch now token t) (sym same)
            (member, alive, λ (v : bcrypt_verify token row.api_key_hash ≡ true). active prefix v)
      found (inr (row, hash, e, stored, same)) =
          let (member, held) = first_where-IsIn (by_previous_prefix now (take 12 token)) t row e in
          let ((until, kept, early), alive) =
            by_previous_prefix-true now (take 12 token) row held in
          subst (IsMatch now token t) (sym same) (
            member,
            alive,
            λ (v : bcrypt_verify token hash ≡ true). previous hash until stored kept early v,
          )

  matched :
      (now : ℕ) (t : Providers) (token : Text) (m : ProviderAuthMatch)
      → IsMatch now token t m
      → IsIn m.provider t
        × (str_eq m.provider.status "deleted" ≡ false)
        × (bcrypt_verify token m.hash ≡ true → IsKeyOf bcrypt_verify now token m.provider)
  unfolding IsMatch
  matched now t token m h = h

  -- A provider that is let in is one of the table that is not deleted, by a Bearer token that starts
  -- as keys do and that is its active key, or its previous one before the end of the grace period.
  pub authenticate-IsKeyOf :
      (authorization : Option Text) (has_pool answers : Bool) (now : ℕ) (t : Providers)
      (row : ProviderRow)
      → authenticate trim bcrypt_verify authorization has_pool answers now t ≡ ok row
      → (given : Text) × (and_bearer authorization ≡ some given)
        × (begins_with (codes "jdb_pk_") (trim given) ≡ true)
        × IsIn row t
        × (str_eq row.status "deleted" ≡ false)
        × IsKeyOf bcrypt_verify now (trim given) row
  unfolding authenticate
  authenticate-IsKeyOf authorization has_pool answers now t row h =
      let (given, h0, h1) =
        >>=-eq-ok (ok_or (and_bearer authorization) (401, "AUTH_REQUIRED")) _ h in
      let token = trim given in
      let (_, h2, h3) =
        >>=-eq-ok (guard (begins_with (codes "jdb_pk_") token) (401, "INVALID_API_KEY")) _ h1 in
      let (_, _, h4) = >>=-eq-ok (guard has_pool (503, "DB_UNAVAILABLE")) _ h3 in
      let (found, h5, h6) =
        >>=-eq-ok (or_db_error (get_provider_for_auth answers now t (take 12 token))) _ h4 in
      let (m, h7, h8) = >>=-eq-ok (ok_or found (401, "INVALID_API_KEY")) _ h6 in
      let (_, h9, h10) =
        >>=-eq-ok (guard (bcrypt_verify token m.hash) (401, "INVALID_API_KEY")) _ h8 in
      let looked_up =
        or_db_error-ok (get_provider_for_auth answers now t (take 12 token)) found h5
        ∙ ap (λ (o : Option ProviderAuthMatch). ok o) (ok_or-eq-ok found _ h7) in
      let (member, alive, key) =
        matched now t token m (get_provider_for_auth-IsMatch answers now t token m looked_up) in
      subst
        (λ (r : ProviderRow).
          (g : Text) × (and_bearer authorization ≡ some g)
          × (begins_with (codes "jdb_pk_") (trim g) ≡ true)
          × IsIn r t
          × (str_eq r.status "deleted" ≡ false)
          × IsKeyOf bcrypt_verify now (trim g) r)
        (ok-injective h10)
        (
          given,
          ok_or-eq-ok (and_bearer authorization) _ h0,
          guard-eq-ok _ _ h2,
          member,
          alive,
          key (guard-eq-ok (bcrypt_verify token m.hash) _ h9),
        )
