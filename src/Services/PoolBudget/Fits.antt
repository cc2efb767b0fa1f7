-- ===== src/Services/PoolBudget/Fits.antt =====
-- The pools of src/services/database.rs fit the budget.
use jecp_server.Prelude.{ℕ, ◌*◌, ◌^◌, ◌≤◌, ◌<◌, ◌≡◌, max, arith, ok}
use jecp_server.Services.PoolBudget.{Budget, pool_sizes, compute_budget, sum_of}

-- Whatever the configured number, as long as fifty times it fits 32 bits, the pools get sizes: at least 4
-- for the invoke pool and 2 for each other, and together no more than the number or the minimum of 14.
pub pool_sizes-fits :
    (db_max_connections : ℕ)
    → db_max_connections * 50 < 2 ^ 32
    → (b : Budget) × (pool_sizes db_max_connections ≡ ok b)
      × (4 ≤ b.invoke)
      × (2 ≤ b.provider)
      × (2 ≤ b.background)
      × (2 ≤ b.read)
      × (sum_of b ≤ max db_max_connections 14)
unfolding pool_sizes sum_of compute_budget
pool_sizes-fits n h = (
  compute_budget (max n 14),
  ground arith,
  omega arith,
  omega arith,
  omega arith,
  omega arith,
  omega arith,
)
