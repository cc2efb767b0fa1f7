-- ===== src/Protocol/X402Verify.antt =====
-- src/protocol/x402_verify.rs: the checks of the X-Payment header before any network call.
-- The crates `base64` and `serde_json` are parameters. A header that `to_str` gives is visible ASCII or
-- tab, so `trim` takes off ASCII white space.
pub mod Checks
mod Tests
use Prim.Native.String.{String}
use text.Mathlib.Text.{◌==◌ as str_eq}
use jecp_server.Prelude.{
  ℕ, ◌+◌, ◌*◌, ◌^◌, Bool, true, false, ◌||◌, ◌&&◌, Option, none, some, List, [], ◌∷◌, Text, ltb,
  leb, ◌==◌, length, Result, ok, err, guard, ok_or, ◌>>=◌, ◌>>◌, if◌then◌else◌,
}
use jecp_server.Protocol.Decimal.{parse_u128, u128_mod}
use jecp_server.Protocol.X402Types.{
  PaymentPayload, PaymentRequirements, X402Error, payment_invalid, header_too_large, base64_decode,
  json_parse, scheme_unsupported, version_unsupported, scheme_mismatch, network_mismatch,
  recipient_mismatch, not_yet_valid, expired, amount_parse_error, amount_overflow, amount_mismatch,
}

abbrev pub max_x_payment_header_bytes : ℕ
max_x_payment_header_bytes = 8 * 1024

pub is_space : ℕ → Bool
is_space c = c == 32 || (leb 9 c && leb c 13)

pub trim_start : Text → Text
unfolding is_space
trim_start [] = []
trim_start (c ∷ cs) = if is_space c then trim_start cs else c ∷ cs

pub cons_trimmed : ℕ → Text → Text
unfolding is_space
cons_trimmed c [] = if is_space c then [] else c ∷ []
cons_trimmed c (d ∷ ds) = c ∷ d ∷ ds

pub trim_end : Text → Text
unfolding cons_trimmed
trim_end [] = []
trim_end (c ∷ cs) = cons_trimmed c (trim_end cs)

pub trim : Text → Text
unfolding trim_start trim_end
trim s = trim_end (trim_start s)

module _ (base64_decoded : Text → Option Text) (json_parsed : Text → Option PaymentPayload) where
  unfoldable pub decode_x_payment_header : Text → Result X402Error PaymentPayload
  unfolding trim
  decode_x_payment_header header =
      if ltb max_x_payment_header_bytes (length header)
      then err (payment_invalid header_too_large)
      else do
        decoded ← ok_or (base64_decoded (trim header)) (payment_invalid base64_decode)
        parsed ← ok_or (json_parsed decoded) (payment_invalid json_parse)
        guard (str_eq parsed.scheme "exact") (payment_invalid scheme_unsupported)
        guard (parsed.x402_version == 1) (payment_invalid version_unsupported)
        ok parsed

-- `max_amount_required.parse::<u128>()` and `value.try_into::<u128>()`, which fails from 2 ^ 128 on.
unfoldable pub validate_payment_payload :
    PaymentPayload → PaymentRequirements → ℕ → Result X402Error (Unit {0})
validate_payment_payload payload requirements now_unix = do
  guard (str_eq payload.scheme requirements.scheme) (payment_invalid scheme_mismatch)
  guard (str_eq payload.network requirements.network) (payment_invalid network_mismatch)
  let auth = payload.payload.authorization
  guard (auth.to == requirements.pay_to) (payment_invalid recipient_mismatch)
  guard (leb auth.valid_after now_unix) (payment_invalid not_yet_valid)
  guard (ltb now_unix auth.valid_before) (payment_invalid expired)
  required ←
      ok_or (parse_u128 requirements.max_amount_required) (payment_invalid amount_parse_error)
  guard (ltb auth.value u128_mod) (payment_invalid amount_overflow)
  guard (auth.value == required) (payment_invalid amount_mismatch)
