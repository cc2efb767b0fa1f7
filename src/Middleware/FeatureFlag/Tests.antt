-- ===== src/Middleware/FeatureFlag/Tests.antt =====
-- Runs of the cache of src/middleware/feature_flag.rs: refunds are switched off after five seconds.
use jecp_server.Prelude.{
  ℕ, ◌*◌, ◌≤◌, ◌≡◌, refl, ap, true, false, some, List, [], ◌∷◌, arith, le→leb, leb, err, ok,
  if◌then◌else◌, none,
}
use jecp_server.Middleware.FeatureFlag.{
  FlagRow, Reply, CacheState, default_cache, refresh, is_enabled, read_guard, or_refresh, collect,
  insert_row, get_or_true, check_feature,
}
use jecp_server.Middleware.FeatureFlag.Fresh.{
  Reachable, start, later, write, says, check_feature-switched_off,
}

abbrev second : ℕ
second = 1_000_000_000

abbrev switched_on : List FlagRow
switched_on = record { flag_name = some "refunds"; enabled = some true } ∷ []

abbrev switched_off : List FlagRow
switched_off =
    record { flag_name = some "other"; enabled = none }
    ∷ record { flag_name = some "refunds"; enabled = some false }
    ∷ []

abbrev operator : ℕ → Reply
operator t = if leb (5 * second) t then some (ok switched_off) else some (ok switched_on)

abbrev after_first : CacheState
after_first = (refresh default_cache (operator second) "refunds" second).1

after_first-Reachable : Reachable operator (40 * second) after_first
after_first-Reachable =
    later (40 * second) (omega arith)
      (write "refunds" second (omega arith) (later second (omega arith) start))

-- Ten seconds on the cache still says yes.
still_enabled : (is_enabled after_first (operator (10 * second)) "refunds" (10 * second)).0 ≡ true
unfolding is_enabled or_refresh read_guard refresh collect insert_row get_or_true
still_enabled = refl

fails_open : (is_enabled default_cache none "refunds" 7).0 ≡ true
unfolding is_enabled or_refresh read_guard refresh
fails_open = refl

switched_off_for_good :
    (at : ℕ)
    → 5 * second ≤ at
    → (rows : List FlagRow) × (operator at ≡ some (ok rows)) × (says rows "refunds" ≡ false)
unfolding collect insert_row get_or_true
switched_off_for_good at h = (
  switched_off,
  ap (λ b. if b then some (ok switched_off) else some (ok switched_on)) (le→leb (5 * second) at h),
  refl,
)

check_feature-switched_off_example :
    (check_feature after_first (operator (40 * second)) "refunds" (40 * second)).0
    ≡ err (503, "FEATURE_DISABLED")
check_feature-switched_off_example =
    check_feature-switched_off operator "refunds" (5 * second) (40 * second) switched_off_for_good
      (omega arith) (omega arith) after_first-Reachable
