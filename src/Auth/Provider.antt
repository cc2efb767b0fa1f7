-- ===== src/Auth/Provider.antt =====
-- src/routes/providers.rs and src/services/database.rs: the authentication of a provider by its key.
-- bcrypt is a parameter. `LIMIT 1` takes the first row of the table, in whatever order the table has.
pub mod Keys
mod Tests
use Prim.Native.String.{String}
use text.Mathlib.Text.{◌==◌ as str_eq}
use jecp_server.Prelude.{
  ℕ, Bool, true, false, ◌&&◌, not, Option, none, some, List, [], ◌∷◌, Text, codes, text_eq, ltb,
  ◌==◌, if◌then◌else◌, take, drop, length, Result, ok, err, guard, ok_or, ◌>>=◌, ◌>>◌,
}
use jecp_server.Services.Facilitator.{begins_with}

-- A row of jecp.providers.
pub record ProviderRow : Type 0 where
  pub id : ℕ
  pub namespace : String
  pub status : String
  pub api_key_prefix : Text
  pub api_key_hash : Text
  pub previous_api_key_prefix : Option Text
  pub previous_api_key_hash : Option Text
  pub previous_key_valid_until : Option ℕ
  pub dns_verified : Bool
  pub stripe_account_verified : Bool

abbrev pub Providers : Type 0
Providers = List ProviderRow

pub record ProviderAuthMatch : Type 0 where
  pub provider : ProviderRow
  pub hash : Text
  pub is_grace_match : Bool

-- A status and a code.
abbrev pub AuthError : Type 0
AuthError = ℕ × String

unfoldable pub is_prefix : Text → Option Text → Bool
is_prefix prefix none = false
is_prefix prefix (some p) = text_eq p prefix

-- NULL is not later than now.
unfoldable pub is_later : ℕ → Option ℕ → Bool
is_later now none = false
is_later now (some until) = ltb now until

unfoldable pub by_active_prefix : Text → ProviderRow → Bool
by_active_prefix prefix row = text_eq row.api_key_prefix prefix && not (str_eq row.status "deleted")

unfoldable pub by_previous_prefix : ℕ → Text → ProviderRow → Bool
unfolding is_prefix is_later
by_previous_prefix now prefix row =
    is_prefix prefix row.previous_api_key_prefix
    && (is_later now row.previous_key_valid_until && not (str_eq row.status "deleted"))

-- `LIMIT 1`.
unfoldable pub first_where : (ProviderRow → Bool) → Providers → Option ProviderRow
first_where p [] = none
first_where p (row ∷ rows) = let rest = first_where p rows in if p row then some row else rest

-- A row whose previous hash is NULL cannot be read.
unfoldable pub grace_match : ProviderRow → Result (Unit {0}) (Option ProviderAuthMatch)
grace_match row = do
  hash ← ok_or row.previous_api_key_hash tt
  ok (some (record { provider = row; hash = hash; is_grace_match = true }))

-- The answer of the first query, or else that of the second.
unfoldable pub either_match :
    Option ProviderRow → Option ProviderRow → Result (Unit {0}) (Option ProviderAuthMatch)
unfolding grace_match
either_match (some row) previous =
    ok (some (record { provider = row; hash = row.api_key_hash; is_grace_match = false }))
either_match none (some row) = grace_match row
either_match none none = ok none

-- The two queries; the flag says that the database answers.
unfoldable pub get_provider_for_auth :
    Bool → ℕ → Providers → Text → Result (Unit {0}) (Option ProviderAuthMatch)
unfolding first_where by_active_prefix by_previous_prefix either_match
get_provider_for_auth answers now t prefix = do
  guard answers tt
  either_match (first_where (by_active_prefix prefix) t)
      (first_where (by_previous_prefix now prefix) t)

unfoldable pub or_db_error : {A : Type 0} → Result (Unit {0}) A → Result AuthError A
or_db_error (ok a) = ok a
or_db_error (err e) = err (500, "DB_ERROR")

-- `strip_prefix("Bearer ")`.
unfoldable pub bearer : Text → Option Text
unfolding begins_with
bearer s = if begins_with (codes "Bearer ") s then some (drop 7 s) else none

unfoldable pub and_bearer : Option Text → Option Text
unfolding bearer
and_bearer none = none
and_bearer (some s) = bearer s

module _ (trim : Text → Text) (bcrypt_verify : Text → Text → Bool) where
  unfoldable pub authenticate :
      Option Text → Bool → Bool → ℕ → Providers → Result AuthError ProviderRow
  unfolding and_bearer begins_with or_db_error get_provider_for_auth
  authenticate authorization has_pool answers now t = do
    given ← ok_or (and_bearer authorization) (401, "AUTH_REQUIRED")
    let token = trim given
    guard (begins_with (codes "jdb_pk_") token) (401, "INVALID_API_KEY")
    guard has_pool (503, "DB_UNAVAILABLE")
    found ← or_db_error (get_provider_for_auth answers now t (take 12 token))
    auth_match ← ok_or found (401, "INVALID_API_KEY")
    guard (bcrypt_verify token auth_match.hash) (401, "INVALID_API_KEY")
    ok auth_match.provider
