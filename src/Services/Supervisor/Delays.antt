-- ===== src/Services/Supervisor/Delays.antt =====
-- The delays of src/services/supervisor.rs in closed form.
use jecp_server.Prelude.{ℕ, ◌*◌, ◌^◌, ◌≤◌, ◌≡◌, min, zero, suc, refl, arith}
use jecp_server.Services.Supervisor.{backoff_after, slept_after}

-- The delay doubles with each restart, up to 30 seconds.
pub backoff_after-eq : (n : ℕ) → backoff_after n ≡ min (2 ^ n) 30
unfolding backoff_after
backoff_after-eq zero = refl
backoff_after-eq (suc n) = omega (arith, backoff_after-eq n)

-- After any number of restarts the loop has slept at least as many seconds, and at most 30 for each: it
-- neither spins nor gives up.
pub slept_after-bounds : (n : ℕ) → (n ≤ slept_after n) × (slept_after n ≤ 30 * n)
unfolding slept_after
slept_after-bounds zero = (omega arith, omega arith)
slept_after-bounds (suc n) = (
  omega (arith, slept_after-bounds n, backoff_after-eq n, one_le_pow n),
  omega (arith, slept_after-bounds n, backoff_after-eq n),
)
  where
    one_le_pow : (k : ℕ) → 1 ≤ 2 ^ k
    one_le_pow zero = omega arith
    one_le_pow (suc k) = omega (arith, one_le_pow k)
