-- ===== src/Services/Supervisor.antt =====
-- src/services/supervisor.rs: the back-off of a supervised task, in seconds.
pub mod Delays
use jecp_server.Prelude.{ℕ, ◌+◌, ◌*◌, min, zero, suc}

-- The variable `backoff` after a number of restarts.
pub backoff_after : ℕ → ℕ
backoff_after zero = 1
backoff_after (suc n) = min (backoff_after n * 2) 30

-- How long the loop has slept by then.
pub slept_after : ℕ → ℕ
unfolding backoff_after
slept_after zero = 0
slept_after (suc n) = slept_after n + backoff_after n
