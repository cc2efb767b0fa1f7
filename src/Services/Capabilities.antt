-- ===== src/Services/Capabilities.antt =====
-- src/services/database.rs: the statements on the table of capabilities, which has the actions of the
-- manifest with each row. A status is its code points.
pub mod Rows
use Prim.Native.String.{String}
use text.Mathlib.Text.{◌==◌ as str_eq}
use jecp_server.Prelude.{
  ℕ, Bool, true, false, ◌&&◌, ◌||◌, not, Option, none, some, List, [], ◌∷◌, ◌++◌, map, Text, codes,
  text_eq, any, ◌==◌, if◌then◌else◌, Result, ok, err, guard, ok_or, ◌>>=◌, ◌>>◌,
}
use jecp_server.Auth.Provider.{ProviderRow, Providers, AuthError, authenticate, or_db_error}
use jecp_server.Routes.InvokeX402.{ManifestAction, lists_x402}
use jecp_server.Services.Relayer.BigEndian.{Bytes, zeros}
use jecp_server.Services.Relayer.Transaction.{RegisterAuthorization}

-- A row of jecp.capabilities, with the actions of its row of jecp.manifests.
pub record CapabilityRow : Type 0 where
  pub id : ℕ
  pub provider_id : ℕ
  pub capability_name : String
  pub version : String
  pub full_id : String
  pub status : Text
  pub sunset_at : Option ℕ
  pub actions : List ManifestAction

abbrev pub Capabilities : Type 0
Capabilities = List CapabilityRow

-- A row of jecp.manifest_history: the capability and its provider.
pub data HistoryRow : Type 0 where
  published : ℕ → ℕ → HistoryRow
  sunset : ℕ → ℕ → HistoryRow

pub record Store : Type 0 where
  pub capabilities : Capabilities
  pub history : List HistoryRow

pub data SaveError : Type 0 where
  unique_violation : SaveError
  other_failure : SaveError

abbrev pub active : Text
active = codes "active"

abbrev pub submitted : Text
submitted = codes "submitted"

abbrev pub is_over : Text → Bool
is_over status = text_eq status (codes "sunset") || text_eq status (codes "deprecated")

-- The primary key, and UNIQUE(provider_id, capability, version).
unfoldable pub clashes : CapabilityRow → CapabilityRow → Bool
clashes new row =
    row.id == new.id
    || (row.provider_id == new.provider_id
        && (str_eq row.capability_name new.capability_name && str_eq row.version new.version))

unfoldable pub initial_status : Bool → Text
initial_status fully_verified = if fully_verified then active else submitted

-- The transaction of `publish_manifest`, with the id that the database draws.
unfoldable pub publish_manifest :
    Bool → CapabilityRow → Bool → Store → Result SaveError (ℕ × Text) × Store
unfolding clashes initial_status
publish_manifest answers new fully_verified s =
    if any (clashes new) s.capabilities
    then (err unique_violation, s)
    else if answers
    then (
      ok (new.id, initial_status fully_verified),
      record {
        capabilities =
            record new { status = initial_status fully_verified; sunset_at = none }
            ∷ s.capabilities;
        history = s.history ++ published new.id new.provider_id ∷ [];
      },
    )
    else (err other_failure, s)

unfoldable pub is_submitted : ℕ → CapabilityRow → Bool
is_submitted id row = row.id == id && text_eq row.status submitted

unfoldable pub promote_row : ℕ → CapabilityRow → CapabilityRow
unfolding is_submitted
promote_row id row = if is_submitted id row then record row { status = active } else row

unfoldable pub promote_capability : Bool → ℕ → Store → Result (Unit {0}) Bool × Store
unfolding is_submitted promote_row
promote_capability answers id s =
    if answers
    then (
      ok (any (is_submitted id) s.capabilities),
      record { capabilities = map (promote_row id) s.capabilities; history = s.history },
    )
    else (err tt, s)

unfoldable pub is_open : ℕ → CapabilityRow → Bool
is_open id row = row.id == id && not (is_over row.status)

unfoldable pub sunset_row : ℕ → ℕ → CapabilityRow → CapabilityRow
unfolding is_open
sunset_row now id row =
    if is_open id row then record row { status = codes "sunset"; sunset_at = some now } else row

unfoldable pub sunset_capability : Bool → ℕ → ℕ → ℕ → Store → Result (Unit {0}) Bool × Store
unfolding is_open sunset_row
sunset_capability answers now id provider_id s =
    if answers
    then (
      ok (any (is_open id) s.capabilities),
      record {
        capabilities = map (sunset_row now id) s.capabilities;
        history =
            if any (is_open id) s.capabilities
            then s.history ++ sunset id provider_id ∷ []
            else s.history;
      },
    )
    else (err tt, s)

unfoldable pub find_owned : ℕ → ℕ → Capabilities → Option CapabilityRow
find_owned id provider_id [] = none
find_owned id provider_id (row ∷ rows) =
    let rest = find_owned id provider_id rows in
    if row.id == id && row.provider_id == provider_id then some row else rest
