-- ===== src/Services/PoolBudget.antt =====
-- src/services/database.rs, PartitionedPools: how many connections each pool gets.
-- Sizes are words of 32 bits. Building a pool is the crate sqlx, and left out.
pub mod Fits
mod Tests
use jecp_server.Prelude.{
  ℕ, ◌+◌, ◌*◌, ◌/◌, ◌%◌, ◌^◌, max, Bool, true, false, Result, ok, err, ltb, if◌then◌else◌,
}

abbrev pub min_total_pool_budget : ℕ
min_total_pool_budget = 14

pub record Budget : Type 0 where
  pub invoke : ℕ
  pub provider : ℕ
  pub background : ℕ
  pub read : ℕ

-- `total * percent / 100`.
abbrev pub percent_of : ℕ → ℕ → ℕ
percent_of total percent = total * percent % 2 ^ 32 / 100

pub compute_budget : ℕ → Budget
compute_budget total = record {
  invoke = max (percent_of total 50) 4;
  provider = max (percent_of total 20) 2;
  background = max (percent_of total 15) 2;
  read = max (percent_of total 15) 2;
}

pub sum_of : Budget → ℕ
sum_of b = b.invoke + b.provider + b.background + b.read

-- The sizes that `create` gives the four pools, or the sum that is too large.
pub pool_sizes : ℕ → Result ℕ Budget
unfolding compute_budget sum_of
pool_sizes db_max_connections =
    let total = max db_max_connections min_total_pool_budget in
    let b = compute_budget total in if ltb total (sum_of b) then err (sum_of b) else ok b
