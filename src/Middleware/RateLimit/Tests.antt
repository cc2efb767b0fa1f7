-- ===== src/Middleware/RateLimit/Tests.antt =====
-- Runs of the rate limiter, and the theorems about it at concrete calls.
use jecp_server.Prelude.{ℕ, ◌*◌, ◌≤◌, List, [], ◌∷◌, none, arith, length, retain}
use jecp_server.Middleware.RateLimit.{RateLimitDecision, recent, check, sweep}
use jecp_server.Middleware.RateLimit.Window.{
  Trace, start, call, sweeping, accept, accepted-le-limit,
}

abbrev second : ℕ
second = 1_000_000_000

abbrev two_calls : List ℕ
two_calls = 5 * second ∷ 8 * second ∷ []

abbrev wait_35 : RateLimitDecision
wait_35 = record { retry_after_secs = 35 }

abbrev three_calls :
    Trace 1
      (check 1 (sweep 70 (check 1 (λ _. none) "alice" none 7).1) "alice" none (61 * second)).1
      (accept
        (accept (λ _. []) "alice" 7 (check 1 (λ _. none) "alice" none 7).0)
        "alice"
        (61 * second)
        (check 1 (sweep 70 (check 1 (λ _. none) "alice" none 7).1) "alice" none (61 * second)).0)
      (61 * second)
three_calls =
    call "alice" (61 * second) (omega arith)
      (sweeping 70 (omega arith) (call "alice" 7 (omega arith) start))

accepted-le-limit_example :
    length (
      retain (recent (61 * second)) (
        (accept
            (accept (λ _. []) "alice" 7 (check 1 (λ _. none) "alice" none 7).0)
            "alice"
            (61 * second)
            (check 1
              (sweep 70 (check 1 (λ _. none) "alice" none 7).1)
              "alice"
              none
              (61 * second)).0)
          "alice"))
    ≤ 1
accepted-le-limit_example = accepted-le-limit "alice" three_calls
