-- ===== src/Auth/Agent/Tiers.antt =====
-- The trust gate of src/auth/agent.rs.
use jecp_server.Prelude.{◌≤◌, ◌≡◌, arith, ok}
use jecp_server.Auth.Agent.{AgentProfile, Capability, trust_tier, check_trust_gate, rank}

rank_mono :
    (a b : AgentProfile) → a.total_calls ≤ b.total_calls → rank (trust_tier a) ≤ rank (trust_tier b)
unfolding rank trust_tier
rank_mono a b h = ground arith

-- An agent that passes the gate of a capability still passes it with more calls, counted as words.
pub check_trust_gate_mono :
    (a b : AgentProfile) (capability : Capability)
    → a.total_calls ≤ b.total_calls
    → check_trust_gate a capability ≡ ok tt
    → check_trust_gate b capability ≡ ok tt
unfolding check_trust_gate
check_trust_gate_mono a b capability h passed = ground (arith, rank_mono a b h)
