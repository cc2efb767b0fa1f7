-- ===== src/Middleware/FeatureFlag/Fresh.antt =====
-- src/middleware/feature_flag.rs: an answer is never older than the time that a look is kept.
use Prim.Native.String.{String}
use jecp_server.Prelude.{
  ℕ, ◌≤◌, ◌<◌, ◌+◌, ◌-◌, ◌≡◌, ◌≢◌, refl, sym, ap, subst, ◌⊎◌, inl, inr, Bool, true, false, none,
  some, List, arith, ltb, ltb→lt, if◌then◌else◌, guard, ok, err, Option-cases,
}
use jecp_server.Middleware.FeatureFlag.{
  cache_ttl, CacheState, FlagRow, Reply, default_cache, get_or_true, collect, read_guard, refresh,
  or_refresh, is_enabled, check_feature,
}

-- What a table says of a flag.
abbrev pub says : List FlagRow → String → Bool
says rows flag = get_or_true (collect (λ _. none) rows flag)

-- The table cannot be read.
pub data IsUnread : Reply → Type 0 where
  no_pool : IsUnread none
  failed : {why : Unit {0}} → IsUnread (some (err why))

Reply-cases : (reply : Reply) → ((rows : List FlagRow) × (reply ≡ some (ok rows))) ⊎ IsUnread reply
Reply-cases none = inr no_pool
Reply-cases (some (err why)) = inr failed
Reply-cases (some (ok rows)) = inl (rows, refl)

IsUnread-unread : {reply : Reply} {rows : List FlagRow} → IsUnread reply → reply ≢ some (ok rows)
IsUnread-unread no_pool e = cc
IsUnread-unread failed e = cc

if-eq-some :
    (b : Bool) {x hit : Bool} → (if b then some x else none) ≡ some hit → (b ≡ true) × (hit ≡ x)
if-eq-some false e = absurd (cc)
if-eq-some true e = (refl, cc)

-- The database is a function of time, and a call reads it at the time of its stamp.
module _ (db : ℕ → Reply) where
  -- Every cache that calls can leave by a time, where between the look of one and its write others
  -- may come, so that a write may bear an old stamp.
  pub data Reachable : ℕ → CacheState → Type 0 where
    start : Reachable 0 default_cache
    later : {t : ℕ} {c : CacheState} (t' : ℕ) → t ≤ t' → Reachable t c → Reachable t' c
    write :
        {t : ℕ} {c : CacheState} (flag : String) (now : ℕ)
        → now ≤ t
        → Reachable t c
        → Reachable t (refresh c (db now) flag now).1

  -- What the cache holds is what the table said at the time that it is marked with.
  data Holds (t : ℕ) : CacheState → Type 0 where
    nothing : Holds t default_cache
    read_at :
        (at : ℕ) (rows : List FlagRow)
        → at ≤ t
        → db at ≡ some (ok rows)
        → Holds t (record { map = collect (λ _. none) rows; fetched_at = some at })

  Holds-later : {t : ℕ} {c : CacheState} (t' : ℕ) → t ≤ t' → Holds t c → Holds t' c
  Holds-later t' le nothing = nothing
  Holds-later t' le (read_at at rows h e) = read_at at rows (omega arith) e

  refresh-Holds :
      {t : ℕ} {c : CacheState} (flag : String) (now : ℕ)
      → now ≤ t
      → Holds t c
      → Holds t (refresh c (db now) flag now).1
  unfolding refresh
  refresh-Holds {t} {c} flag now le held = elim (Reply-cases (db now)) [
    | inl (rows, e) ↦
        subst (λ reply. Holds t (refresh c reply flag now).1) (sym e) (read_at now rows le e)
    | inr unread ↦ unchanged unread
  ]
    where
      unchanged : {reply : Reply} → IsUnread reply → Holds t (refresh c reply flag now).1
      unchanged no_pool = held
      unchanged failed = held

  Reachable-Holds : {t : ℕ} {c : CacheState} → Reachable t c → Holds t c
  Reachable-Holds start = nothing
  Reachable-Holds (later t' le r) = Holds-later t' le (Reachable-Holds r)
  Reachable-Holds (write flag now le r) = refresh-Holds flag now le (Reachable-Holds r)

  -- The answer is the table's at a time up to `t` that is less than thirty seconds before the stamp,
  -- or the table cannot be read at the stamp and the answer is yes.
  abbrev pub IsFresh : ℕ → String → ℕ → Bool → Type 0
  IsFresh t flag now answer =
      ((at : ℕ) × (rows : List FlagRow) × (at ≤ t)
        × (now < at + cache_ttl)
        × (db at ≡ some (ok rows))
        × (answer ≡ says rows flag))
      ⊎ (IsUnread (db now) × (answer ≡ true))

  -- A look that answers finds what the table said in the last thirty seconds.
  read_guard-recent :
      {t : ℕ} {c : CacheState} {hit : Bool} (flag : String) (now : ℕ)
      → Holds t c
      → read_guard c flag now ≡ some hit
      → (at : ℕ) × (rows : List FlagRow) × (at ≤ t)
        × (now < at + cache_ttl)
        × (db at ≡ some (ok rows))
        × (hit ≡ says rows flag)
  unfolding read_guard
  read_guard-recent flag now nothing e = absurd (cc)
  read_guard-recent flag now (read_at at rows h e) found =
      let (young, same) = if-eq-some (ltb (now - at) cache_ttl) found in
      (at, rows, h, recent (ltb→lt (now - at) cache_ttl young), e, same)
    where
      recent : now - at < cache_ttl → now < at + cache_ttl
      recent small = omega arith

  refresh-IsFresh :
      {t : ℕ} (c : CacheState) (flag : String) (now : ℕ)
      → now ≤ t
      → IsFresh t flag now (refresh c (db now) flag now).0
  unfolding refresh
  refresh-IsFresh {t} c flag now le = elim (Reply-cases (db now)) [
    | inl (rows, e) ↦
        inl (now, rows, le, omega arith, e, ap (λ reply. (refresh c reply flag now).0) e)
    | inr unread ↦ inr (unread, lets unread)
  ]
    where
      lets : {reply : Reply} → IsUnread reply → (refresh c reply flag now).0 ≡ true
      lets no_pool = refl
      lets failed = refl

  -- Whatever calls came before and between, the answer to a call is what the table said less than
  -- thirty seconds before it or later; or it is yes, and the table cannot be read.
  pub is_enabled-IsFresh :
      {t : ℕ} {c : CacheState} (flag : String) (now : ℕ)
      → now ≤ t
      → Reachable t c
      → IsFresh t flag now (is_enabled c (db now) flag now).0
  unfolding is_enabled or_refresh
  is_enabled-IsFresh {t} {c} flag now le r = elim (Option-cases (read_guard c flag now)) [
    | inr (hit, e) ↦
        subst (λ look. IsFresh t flag now (or_refresh look c (db now) flag now).0) (sym e)
          (inl (read_guard-recent flag now (Reachable-Holds r) e))
    | inl e ↦
        subst (λ look. IsFresh t flag now (or_refresh look c (db now) flag now).0) (sym e)
          (refresh-IsFresh c flag now le)
  ]

  -- Where the table can be read and says no from some time on, every call from thirty seconds after
  -- that time is refused with 503.
  pub check_feature-switched_off :
      {t : ℕ} {c : CacheState} (flag : String) (off now : ℕ)
      → ((at : ℕ)
          → off ≤ at
          → (rows : List FlagRow) × (db at ≡ some (ok rows)) × (says rows flag ≡ false))
      → off + cache_ttl ≤ now
      → now ≤ t
      → Reachable t c
      → (check_feature c (db now) flag now).0 ≡ err (503, "FEATURE_DISABLED")
  unfolding check_feature
  check_feature-switched_off {t} {c} flag off now is_off late le r =
      ap (λ b. guard b (503, "FEATURE_DISABLED")) (off_now (is_enabled-IsFresh flag now le r))
    where
      off_now :
          IsFresh t flag now (is_enabled c (db now) flag now).0
          → (is_enabled c (db now) flag now).0 ≡ false
      off_now (inl (at, rows, h, young, e, same)) =
          let (read, e', says_no) = is_off at (omega arith) in cc
      off_now (inr (unread, e)) =
          let (read, e', says_no) = is_off now (omega arith) in absurd (IsUnread-unread unread e')
