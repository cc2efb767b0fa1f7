-- ===== src/Services/PoolBudget/Tests.antt =====
-- The sizes for a small and for a common number of connections.
use jecp_server.Prelude.{◌≡◌, refl, ok}
use jecp_server.Services.PoolBudget.{pool_sizes}

sixty : pool_sizes 60 ≡ ok (record { invoke = 30; provider = 12; background = 9; read = 9 })
unfolding pool_sizes
sixty = refl
