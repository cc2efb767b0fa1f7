-- ===== src/Auth/Provenance.antt =====
-- src/auth/agent.rs, verify_provenance and verify_provenance_v2: the signed provenance of a request.
-- HMAC-SHA256 in hex digits is a parameter, of the key and the message. An i64 is a word of 64 bits, the
-- negative ones from 2^63 on; differences wrap around. A text is its bytes.
pub mod Sound
pub mod Sample
mod Tests
use jecp_server.Prelude.{
  ℕ, ◌+◌, ◌-◌, ◌%◌, ◌^◌, Bool, true, false, ◌&&◌, ◌||◌, Option, none, some, List, [], ◌∷◌, ◌++◌,
  Text, codes, text_eq, all, length, ltb, leb, ◌==◌, zero, suc, Result, ok, err, ok_or, guard,
  ◌>>=◌, ◌>>◌, if◌then◌else◌,
}
use jecp_server.Protocol.Decimal.{to_string, parse_nonempty}
use jecp_server.Auth.Agent.{constant_time_eq}

pub data ProvenanceSubcause : Type 0 where
  wire_malformed hmac_mismatch nonce_replay v1_unavailable v1_legacy_mismatch : ProvenanceSubcause
  clock_skew : ℕ → ProvenanceSubcause

abbrev pub colon : ℕ
colon = 58

-- A piece goes before the first of the others.
pub cons_part : ℕ → List Text → List Text
cons_part c [] = (c ∷ []) ∷ []
cons_part c (p ∷ ps) = (c ∷ p) ∷ ps

-- `splitn(suc n, ':')`: the last piece keeps its colons.
pub splitn : ℕ → Text → List Text
unfolding cons_part
splitn zero s = s ∷ []
splitn (suc n) [] = [] ∷ []
splitn (suc n) (c ∷ cs) =
    let cut = splitn n cs in
    let more = splitn (suc n) cs in if c == colon then [] ∷ cut else cons_part c more

pub is_ascii_hexdigit : ℕ → Bool
is_ascii_hexdigit c = (leb 48 c && leb c 57) || ((leb 65 c && leb c 70) || (leb 97 c && leb c 102))

-- `parse::<i64>()`, with a sign or without.
pub below : ℕ → Option ℕ → Option ℕ
below bound none = none
below bound (some n) = if ltb n bound then some n else none

pub negative : Option ℕ → Option ℕ
negative none = none
negative (some n) = some ((2 ^ 64 - n) % 2 ^ 64)

pub parse_i64 : Text → Option ℕ
unfolding below negative
parse_i64 [] = none
parse_i64 (c ∷ cs) =
    if c == 45
    then negative (below (2 ^ 63 + 1) (parse_nonempty cs))
    else if c == 43
    then below (2 ^ 63) (parse_nonempty cs)
    else below (2 ^ 63) (parse_nonempty (c ∷ cs))

pub i64_text : ℕ → Text
i64_text w = if ltb w (2 ^ 63) then to_string w else 45 ∷ to_string (2 ^ 64 - w)

-- `now - timestamp`, and `abs() > skew` of it; the absolute value of the least i64 wraps to itself.
pub drift : ℕ → ℕ → ℕ
drift now timestamp = (now + (2 ^ 64 - timestamp % 2 ^ 64)) % 2 ^ 64

pub abs_i64 : ℕ → ℕ
abs_i64 w = if ltb w (2 ^ 63) then w else 2 ^ 64 - w

pub is_skewed : ℕ → ℕ → Bool
unfolding abs_i64
is_skewed d skew = ltb (abs_i64 d) (2 ^ 63) && ltb skew (abs_i64 d)

pub message : Text → ℕ → Text → Text
unfolding i64_text
message agent_id timestamp nonce = agent_id ++ colon ∷ (i64_text timestamp ++ colon ∷ nonce)

pub four : List Text → Option (Text × Text × Text × Text)
four (a ∷ b ∷ c ∷ d ∷ []) = some (a, b, c, d)
four _ = none

module _ (hmac_hex : Text → Text → Text) where
  pub verify_provenance_v2 : ℕ → Text → Text → Text → ℕ → Result ProvenanceSubcause (ℕ × Text)
  unfolding splitn four parse_i64 is_ascii_hexdigit drift is_skewed message
  verify_provenance_v2 now api_key agent_id claimed skew_seconds = do
    (v2, t, nonce, claimed_tag) ← ok_or (four (splitn 3 claimed)) wire_malformed
    guard (text_eq v2 (codes "v2")) wire_malformed
    timestamp ← ok_or (parse_i64 t) wire_malformed
    guard (leb 16 (length nonce) && all is_ascii_hexdigit nonce) wire_malformed
    guard (length claimed_tag == 64 && all is_ascii_hexdigit claimed_tag) wire_malformed
    guard (if is_skewed (drift now timestamp) skew_seconds then false else true)
        (clock_skew (drift now timestamp))
    guard (constant_time_eq (hmac_hex api_key (message agent_id timestamp nonce)) claimed_tag)
        hmac_mismatch
    ok (timestamp, nonce)

-- Whether a wire form has the prefix of the second version.
unfoldable pub is_v2 : Text → Bool
is_v2 (a ∷ b ∷ c ∷ rest) = text_eq (a ∷ b ∷ c ∷ []) (codes "v2:")
is_v2 _ = false

-- `compute_provenance_hash`, the hash of the first version, comes as `expected`. The answer is the time
-- and the nonce of the second version, none for the first.
module _ (hmac_hex : Text → Text → Text) where
  unfoldable pub verify_provenance :
      ℕ → Text → Text → Text → Text → Text → Result ProvenanceSubcause (Option (ℕ × Text))
  unfolding is_v2
  verify_provenance now agent_api_key expected agent_id plaintext_api_key claimed_hash =
      if is_v2 claimed_hash
      then elim (verify_provenance_v2 hmac_hex now plaintext_api_key agent_id claimed_hash 300) [
        | ok seen ↦ ok (some seen)
        | err e ↦ err e
      ]
      else if text_eq agent_api_key []
      then err v1_unavailable
      else if constant_time_eq expected claimed_hash
      then ok none
      else err v1_legacy_mismatch
