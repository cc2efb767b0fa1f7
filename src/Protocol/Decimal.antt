-- ===== src/Protocol/Decimal.antt =====
-- Decimal text of a `u128`, as `to_string` prints it and `parse` reads it in src/routes/invoke_x402.rs
-- and src/protocol/x402_verify.rs.
pub mod RoundTrip
mod Tests
use jecp_server.Prelude.{
  ℕ, zero, suc, ◌+◌, ◌-◌, ◌*◌, ◌/◌, ◌%◌, ◌^◌, Bool, true, false, ◌&&◌, Option, none, some, List, [],
  ◌∷◌, Text, ltb, leb, ◌==◌, if◌then◌else◌,
}

-- A `u128` has 39 digits at most.
unfoldable pub digits : ℕ → ℕ → Text → Text
digits zero n acc = acc
digits (suc fuel) n acc =
    let more = digits fuel (n / 10) ((b'0' + n % 10) ∷ acc) in
    if n / 10 == 0 then (b'0' + n % 10) ∷ acc else more

unfoldable pub to_string : ℕ → Text
to_string n = digits 39 n []

abbrev pub u128_mod : ℕ
u128_mod = 2 ^ 128

unfoldable pub is_digit : ℕ → Bool
is_digit c = leb b'0' c && leb c b'9'

-- `none` for a character that is no digit, and for a value that does not fit.
unfoldable pub parse_digits : ℕ → Text → Option ℕ
unfolding is_digit
parse_digits acc [] = some acc
parse_digits acc (c ∷ cs) =
    let rest = parse_digits (acc * 10 + (c - b'0')) cs in
    if is_digit c && ltb (acc * 10 + (c - b'0')) u128_mod then rest else none

-- A leading plus sign is allowed; an empty text is not a number.
unfoldable pub strip_plus : Text → Text
strip_plus [] = []
strip_plus (c ∷ cs) = if c == b'+' then cs else c ∷ cs

unfoldable pub parse_nonempty : Text → Option ℕ
unfolding parse_digits
parse_nonempty [] = none
parse_nonempty (c ∷ cs) = parse_digits 0 (c ∷ cs)

unfoldable pub parse_u128 : Text → Option ℕ
unfolding parse_nonempty strip_plus
parse_u128 s = parse_nonempty (strip_plus s)
