-- ===== src/Auth/Agent/Tests.antt =====
-- An agent with a rotated key.
use jecp_server.Prelude.{ℕ, ◌≡◌, refl, Bool, false, none, some, Text, codes, text_eq, ok, [], ◌∷◌}
use jecp_server.Auth.Agent.{AgentProfile, KeyRow, file_chain, check_trust_gate}

abbrev agent : ℕ → AgentProfile
agent calls = record {
  agent_id = 1;
  api_key = codes "k";
  total_calls = calls;
  free_calls_remaining = 0;
  paid = false;
}

gold_passes : check_trust_gate (agent 500) file_chain ≡ ok tt
unfolding check_trust_gate
gold_passes = refl

abbrev left : Text
left = 7 ∷ 200 ∷ []

abbrev right : Text
right = 7 ∷ 201 ∷ []

-- A hash that is the key itself.
abbrev toy_verify : Text → Text → Bool
toy_verify key h = text_eq key h

abbrev row : KeyRow
row = record {
  profile = agent 5;
  active_hash = some (codes "new");
  previous_hash = some (codes "old");
  previous_valid_until = some 100;
  active_plain = none;
  previous_plain = none;
}
