-- ===== src/Middleware/RateLimit.antt =====
-- src/middleware/rate_limit.rs: the sliding window of one minute for each agent.
-- The lock makes each call one step. `Instant` and `Duration` are nanoseconds; the hash map is a
-- function, and a missing agent is `none`.
pub mod Window
pub mod Retry
mod Tests
use Prim.Native.String.{String}
use text.Mathlib.Text.{◌==◌ as str_eq}
use jecp_server.Prelude.{
  ℕ, ◌+◌, ◌-◌, ◌/◌, Bool, Option, none, some, List, [], ◌∷◌, ◌++◌, ltb, leb, max, min, length,
  retain, Result, ok, err, if◌then◌else◌,
}

abbrev pub Windows : Type 0
Windows = String → Option (List ℕ)

pub record RateLimitDecision : Type 0 where
  pub retry_after_secs : ℕ

abbrev pub as_secs : ℕ → ℕ
as_secs nanos = nanos / 1_000_000_000

-- Younger than a minute.
abbrev pub recent : ℕ → ℕ → Bool
recent now t = ltb (as_secs (now - t)) 60

abbrev pub or_empty : Option (List ℕ) → List ℕ
or_empty none = []
or_empty (some ts) = ts

pub minimum : List ℕ → Option ℕ
minimum [] = none
minimum (t ∷ ts) = elim (minimum ts) [ none ↦ some t | some m ↦ some (min t m) ]

abbrev pub update : Windows → String → List ℕ → Windows
update w agent ts = λ k. if str_eq agent k then some ts else w k

-- `oldest` of the entries, or now.
pub oldest : ℕ → List ℕ → ℕ
unfolding minimum
oldest now ts = elim (minimum ts) [ none ↦ now | some m ↦ m ]

pub denial : ℕ → List ℕ → RateLimitDecision
unfolding oldest
denial now entries =
    let elapsed = as_secs (now - oldest now entries) in
    let raw = 60 - elapsed in record { retry_after_secs = min (max raw 1) 600 }

-- The call with its limit resolved: what it answers, and the window that it leaves.
pub admit : ℕ → ℕ → List ℕ → Result RateLimitDecision ℕ × List ℕ
unfolding denial
admit limit now window =
    let entries = retain (recent now) window in
    if leb limit (length entries)
    then (err (denial now entries), entries)
    else (ok (limit - length (entries ++ now ∷ [])), entries ++ now ∷ [])

abbrev pub unwrap_or : Option ℕ → ℕ → ℕ
unwrap_or none d = d
unwrap_or (some n) d = n

unfoldable pub check : ℕ → Windows → String → Option ℕ → ℕ → Result RateLimitDecision ℕ × Windows
unfolding admit
check default_rpm w agent_id limit_rpm now =
    let (r, entries) = admit (unwrap_or limit_rpm default_rpm) now (or_empty (w agent_id)) in
    (r, update w agent_id entries)

pub drop_empty : List ℕ → Option (List ℕ)
drop_empty [] = none
drop_empty (t ∷ ts) = some (t ∷ ts)

-- One round of the task that sweeps the map every five minutes.
pub sweep : ℕ → Windows → Windows
unfolding drop_empty
sweep now w = λ k. elim (w k) [ none ↦ none | some ts ↦ drop_empty (retain (recent now) ts) ]
