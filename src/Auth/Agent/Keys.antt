-- ===== src/Auth/Agent/Keys.antt =====
-- Which keys src/auth/agent.rs accepts.
use jecp_server.Prelude.{
  ℕ, ◌≤◌, ◌≡◌, ◌↔◌, ◌⊎◌, arith, Bool, true, some, Text, ok, err, if◌then◌else◌,
}
use jecp_server.Auth.Agent.{
  KeyRow, invalid_api_key, hash_matches, plain_matches, grace_active, authenticated, profile_of,
  authenticate_agent,
}

module _ (bcrypt_verify : Text → Text → Bool) where
  -- The key is the active one, by its hash or plainly, or the previous one in its period of grace.
  abbrev pub IsKeyOf : ℕ → Text → KeyRow → Type 0
  IsKeyOf now key row =
      (hash_matches bcrypt_verify key row.active_hash ≡ true)
      ⊎ ((plain_matches bcrypt_verify key row.active_plain ≡ true)
          ⊎ ((grace_active bcrypt_verify now row.previous_valid_until ≡ true)
              × ((hash_matches bcrypt_verify key row.previous_hash ≡ true)
                  ⊎ (plain_matches bcrypt_verify key row.previous_plain ≡ true))))

  -- A key authenticates exactly when it is a key of the row.
  pub authenticated_iff :
      (now : ℕ) (key : Text) (row : KeyRow)
      → (authenticated bcrypt_verify now key row ≡ true) ↔ IsKeyOf now key row
  unfolding authenticated
  authenticated_iff now key row = (λ h. ground arith, λ h. ground arith)

  -- Once the grace of the previous key is over, an agent is authenticated exactly by its active key: the
  -- answer to a row is then its profile, and an invalid key otherwise.
  pub authenticate_agent-expired :
      (now valid_until : ℕ) (key : Text) (row : KeyRow)
      → row.previous_valid_until ≡ some valid_until
      → valid_until ≤ now
      → authenticate_agent bcrypt_verify (ok (some row)) now key ≡ (
          if hash_matches bcrypt_verify key row.active_hash
          then ok (profile_of bcrypt_verify row)
          else if plain_matches bcrypt_verify key row.active_plain
          then ok (profile_of bcrypt_verify row)
          else err invalid_api_key)
  unfolding authenticate_agent
  authenticate_agent-expired now valid_until key row e late = rw e (ground arith)
