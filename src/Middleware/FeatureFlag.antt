-- ===== src/Middleware/FeatureFlag.antt =====
-- src/middleware/feature_flag.rs: the cache of the operator's switches, which open when the table
-- cannot be read. `Instant` is in nanoseconds; the hash map is a function, `none` where it has no
-- key. The locks make the look and the write of a call steps of their own: `read_guard` is the
-- first, and `is_enabled` a call that nothing comes between.
pub mod Fresh
mod Tests
use Prim.Native.String.{String}
use text.Mathlib.Text.{◌==◌ as str_eq}
use jecp_server.Prelude.{
  ℕ, ◌-◌, ◌*◌, Bool, true, Option, none, some, List, [], ◌∷◌, ltb, Result, ok, err, if◌then◌else◌,
  guard,
}

-- `CACHE_TTL`.
abbrev pub cache_ttl : ℕ
cache_ttl = 30 * 1_000_000_000

abbrev pub Flags : Type 0
Flags = String → Option Bool

pub record CacheState : Type 0 where
  pub map : Flags
  pub fetched_at : Option ℕ

-- The two columns of a row, `none` where one cannot be read as its type.
pub record FlagRow : Type 0 where
  pub flag_name : Option String
  pub enabled : Option Bool

-- What the database has to say: no pool, a failing query, or the rows.
abbrev pub Reply : Type 0
Reply = Option (Result (Unit {0}) (List FlagRow))

-- `CacheState::default`.
abbrev pub default_cache : CacheState
default_cache = record { map = λ _. none; fetched_at = none }

-- `get(flag).copied().unwrap_or(true)`.
unfoldable pub get_or_true : Option Bool → Bool
get_or_true none = true
get_or_true (some enabled) = enabled

-- `new_map.insert`.
unfoldable pub insert_row : FlagRow → Flags → Flags
insert_row row m = elim row.flag_name [
  | none ↦ m
  | some name ↦ elim row.enabled [
    | none ↦ m
    | some enabled ↦ λ flag. if str_eq name flag then some enabled else m flag
  ]
]

-- The loop over the rows, from the map that it has so far.
unfoldable pub collect : Flags → List FlagRow → Flags
collect m [] = m
collect m (row ∷ rows) = collect (insert_row row m) rows

-- The look under the read lock: the answer, where what is kept is young enough.
unfoldable pub read_guard : CacheState → String → ℕ → Option Bool
unfolding get_or_true
read_guard cache flag now = elim cache.fetched_at [
  | none ↦ none
  | some fetched ↦
      if ltb (now - fetched) cache_ttl then some (get_or_true (cache.map flag)) else none
]

-- The query, and the write of what it found.
unfoldable pub refresh : CacheState → Reply → String → ℕ → Bool × CacheState
unfolding collect insert_row get_or_true
refresh cache none flag now = (true, cache)
refresh cache (some (err failure)) flag now = (true, cache)
refresh cache (some (ok rows)) flag now =
    let new_map = collect (λ _. none) rows in
    (get_or_true (new_map flag), record { map = new_map; fetched_at = some now })

-- The answer of the look, or else the query.
unfoldable pub or_refresh : Option Bool → CacheState → Reply → String → ℕ → Bool × CacheState
or_refresh (some hit) cache reply flag now = (hit, cache)
or_refresh none cache reply flag now = refresh cache reply flag now

unfoldable pub is_enabled : CacheState → Reply → String → ℕ → Bool × CacheState
unfolding read_guard or_refresh refresh
is_enabled cache reply flag now = or_refresh (read_guard cache flag now) cache reply flag now

-- The refusal that `check_feature` answers with is 503, FEATURE_DISABLED.
unfoldable pub check_feature :
    CacheState → Reply → String → ℕ → Result (ℕ × String) (Unit {0}) × CacheState
unfolding is_enabled
check_feature cache reply flag now =
    let (enabled, after) = is_enabled cache reply flag now in
    (guard enabled (503, "FEATURE_DISABLED"), after)
