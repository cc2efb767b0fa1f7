-- ===== src/Auth/Agent.antt =====
-- src/auth/agent.rs: agents, their trust tiers, and the check of an API key.
-- `bcrypt::verify` is a parameter, false where it fails. i32 counters are words of 32 bits, the negative
-- ones from 2^31 on. A key is its bytes. Of a row the model has what the check reads, `none` for NULL.
pub mod Tiers
pub mod Compare
pub mod Keys
mod Tests
use jecp_server.Prelude.{
  ℕ, ◌+◌, ◌*◌, ◌/◌, ◌%◌, ◌^◌, Bool, true, false, ◌&&◌, ◌||◌, Option, none, some, List, [], ◌∷◌,
  Text, length, ltb, leb, ◌==◌, zero, suc, Result, ok, err, ok_or, guard, ◌>>=◌, ◌>>◌,
  if◌then◌else◌,
}

pub data TrustTier : Type 0 where
  bronze silver gold platinum : TrustTier

pub data Capability : Type 0 where
  document_pipeline file_chain content_factory data_insight workflow sns_engine : Capability

pub record AgentProfile : Type 0 where
  pub agent_id : ℕ
  pub api_key : Text
  pub total_calls : ℕ
  pub free_calls_remaining : ℕ
  pub paid : Bool

unfoldable pub trust_tier : AgentProfile → TrustTier
trust_tier a =
    if ltb a.total_calls 100
    then bronze
    else if leb 100 a.total_calls && ltb a.total_calls 500
    then silver
    else if leb 500 a.total_calls && ltb a.total_calls 2000
    then gold
    else platinum

-- `x > 0` of an i32.
pub is_positive : ℕ → Bool
is_positive w = ltb 0 w && ltb w (2 ^ 31)

pub is_active : AgentProfile → Bool
unfolding is_positive
is_active a = is_positive a.free_calls_remaining || (a.paid || is_positive a.total_calls)

pub rate_limit_rpm : TrustTier → ℕ
rate_limit_rpm bronze = 10
rate_limit_rpm silver = 30
rate_limit_rpm gold = 100
rate_limit_rpm platinum = 500

pub required_for : Capability → TrustTier
required_for content_factory = bronze
required_for document_pipeline = silver
required_for data_insight = silver
required_for file_chain = gold
required_for workflow = platinum
required_for sns_engine = bronze

-- The derived order.
unfoldable pub rank : TrustTier → ℕ
rank bronze = 0
rank silver = 1
rank gold = 2
rank platinum = 3

pub data AuthError : Type 0 where
  insufficient_trust : TrustTier → TrustTier → AuthError
  invalid_api_key internal : AuthError

pub check_trust_gate : AgentProfile → Capability → Result AuthError (Unit {0})
unfolding trust_tier required_for rank
check_trust_gate agent capability =
    guard (leb (rank (required_for capability)) (rank (trust_tier agent)))
      (insufficient_trust (required_for capability) (trust_tier agent))

-- `x ^ y` and `x | y`, on the lowest `bits` bits.
pub xor : ℕ → ℕ → ℕ → ℕ
xor zero x y = 0
xor (suc bits) x y =
    let rest = xor bits (x / 2) (y / 2) in (if x % 2 == y % 2 then 0 else 1) + 2 * rest

pub or : ℕ → ℕ → ℕ → ℕ
or zero x y = 0
or (suc bits) x y =
    let rest = or bits (x / 2) (y / 2) in (if x % 2 == 0 && y % 2 == 0 then 0 else 1) + 2 * rest

-- The loop over the zipped bytes, with the difference so far.
pub diff_bytes : ℕ → Text → Text → ℕ
unfolding xor or
diff_bytes diff [] b = diff
diff_bytes diff (x ∷ a) [] = diff
diff_bytes diff (x ∷ a) (y ∷ b) = diff_bytes (or 8 diff (xor 8 x y)) a b

unfoldable pub constant_time_eq : Text → Text → Bool
unfolding diff_bytes
constant_time_eq a b = if length a == length b then diff_bytes 0 a b == 0 else false

pub record KeyRow : Type 0 where
  pub profile : AgentProfile
  pub active_hash : Option Text
  pub previous_hash : Option Text
  pub previous_valid_until : Option ℕ
  pub active_plain : Option Text
  pub previous_plain : Option Text

module _ (bcrypt_verify : Text → Text → Bool) where
  pub hash_matches : Text → Option Text → Bool
  hash_matches key none = false
  hash_matches key (some h) = bcrypt_verify key h

  pub plain_matches : Text → Option Text → Bool
  unfolding constant_time_eq
  plain_matches key none = false
  plain_matches key (some p) = constant_time_eq p key

  pub grace_active : ℕ → Option ℕ → Bool
  grace_active now none = false
  grace_active now (some t) = ltb now t

  -- The variable `authenticated` at the end, by the order of its assignments.
  pub authenticated : ℕ → Text → KeyRow → Bool
  unfolding hash_matches plain_matches grace_active
  authenticated now key row =
      if hash_matches key row.active_hash
      then true
      else if plain_matches key row.active_plain
      then true
      else if grace_active now row.previous_valid_until
      then (if hash_matches key row.previous_hash
          then true
          else plain_matches key row.previous_plain)
      else false

  -- `api_key` of the profile is the plain active key, empty where there is none.
  pub profile_of : KeyRow → AgentProfile
  profile_of row = record row.profile { api_key = elim row.active_plain [ none ↦ [] | some p ↦ p ] }

  -- `found` is the answer of the query by the agent's id: a failure, no row, or the row.
  unfoldable pub authenticate_agent :
      Result (Unit {0}) (Option KeyRow) → ℕ → Text → Result AuthError AgentProfile
  unfolding authenticated profile_of
  authenticate_agent (err e) now key = err internal
  authenticate_agent (ok none) now key = err invalid_api_key
  authenticate_agent (ok (some row)) now key =
      if authenticated now key row then ok (profile_of row) else err invalid_api_key
