-- ===== src/Middleware/RateLimit/Retry.antt =====
-- The `Retry-After` value of src/middleware/rate_limit.rs: within its bounds, and long enough.
use jecp_server.Prelude.{ℕ, ◌≤◌, ◌≡◌, List, arith, err}
use jecp_server.Middleware.RateLimit.{RateLimitDecision, admit, denial}

module _ (limit now : ℕ) (window : List ℕ) (d : RateLimitDecision) where
  -- A denied call waits between 1 and 60 seconds.
  pub denial_bounds :
      (admit limit now window).0 ≡ err d → (1 ≤ d.retry_after_secs) × (d.retry_after_secs ≤ 60)
  unfolding admit denial
  denial_bounds h = ground arith
