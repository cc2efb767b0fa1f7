-- ===== src/Protocol/Decimal/RoundTrip.antt =====
-- A printed amount reads back as itself.
use native.Mathlib.Nat.{pow-suc}
use jecp_server.Prelude.{
  ℕ, zero, suc, ◌+◌, ◌-◌, ◌*◌, ◌/◌, ◌%◌, ◌^◌, ◌≤◌, ◌<◌, ◌≡◌, refl, some, [], ◌∷◌, arith, Text, ◌==◌,
  if◌then◌else◌, inl, inr, Bool-cases, ◌∙◌,
}
use jecp_server.Protocol.Decimal.{digits, to_string, u128_mod, parse_digits, parse_u128}

parse_digits-digit :
    (acc n : ℕ) (cs : Text)
    → acc ≡ n / 10
    → n < u128_mod
    → parse_digits acc ((b'0' + n % 10) ∷ cs) ≡ parse_digits n cs
unfolding parse_digits
parse_digits-digit acc n cs e h =
    let same : acc * 10 + (b'0' + n % 10 - b'0') ≡ n = omega arith in rw same (ground arith)

parse_digits-digits :
    (fuel n : ℕ) (acc : Text)
    → n < 10 ^ fuel
    → n < u128_mod
    → parse_digits 0 (digits fuel n acc) ≡ parse_digits n acc
unfolding digits
parse_digits-digits zero n acc small h = let e : n ≡ 0 = omega (arith, small) in rw e
parse_digits-digits (suc fuel) n acc small h = elim (Bool-cases (n / 10 == 0)) [
  | inl last ↦ rw last (parse_digits-digit 0 n acc (ground arith) h)
  | inr more ↦ rw more (
      parse_digits-digits fuel (n / 10) ((b'0' + n % 10) ∷ acc) (omega (arith, pow-suc 10 fuel))
        (omega arith)
      ∙ parse_digits-digit (n / 10) n acc refl h)
]

-- A text that begins with a character that is no plus sign.
abbrev IsNumeral : Text → Type 0
IsNumeral s = (c : ℕ) × (cs : Text) × (s ≡ c ∷ cs) × (b'0' ≤ c)

digits-IsNumeral : (fuel n : ℕ) (acc : Text) → IsNumeral acc → IsNumeral (digits fuel n acc)
unfolding digits
digits-IsNumeral zero n acc h = h
digits-IsNumeral (suc fuel) n acc h =
    let here : IsNumeral ((b'0' + n % 10) ∷ acc) = (b'0' + n % 10, acc, refl, omega arith) in
    elim (Bool-cases (n / 10 == 0)) [
      | inl last ↦ rw last here
      | inr more ↦ rw more (digits-IsNumeral fuel (n / 10) ((b'0' + n % 10) ∷ acc) here)
    ]

to_string-IsNumeral : (n : ℕ) → IsNumeral (to_string n)
unfolding to_string
to_string-IsNumeral n = first_digit (unfold digits in refl)
  where
    first_digit :
        digits 39 n [] ≡ (
          if n / 10 == 0 then (b'0' + n % 10) ∷ [] else digits 38 (n / 10) ((b'0' + n % 10) ∷ []))
        → IsNumeral (digits 39 n [])
    first_digit e = elim (Bool-cases (n / 10 == 0)) [
      | inl last ↦ (b'0' + n % 10, [], rw e (rw last), omega arith)
      | inr more ↦
          let (c, cs, q, d) =
            digits-IsNumeral 38 (n / 10) ((b'0' + n % 10) ∷ [])
              (b'0' + n % 10, [], refl, omega arith) in
          (c, cs, rw e (rw more q), d)
    ]

parse_u128-IsNumeral : (s : Text) → IsNumeral s → parse_u128 s ≡ parse_digits 0 s
unfolding parse_u128
parse_u128-IsNumeral s (c, cs, e, d) = ground (arith, e, d)

parse_digits-to_string : (n : ℕ) → n < u128_mod → parse_digits 0 (to_string n) ≡ parse_digits n []
unfolding to_string
parse_digits-to_string n h = parse_digits-digits 39 n [] (omega arith) h

-- Every `u128` is read back from its text.
pub parse_u128-to_string : (n : ℕ) → n < u128_mod → parse_u128 (to_string n) ≡ some n
unfolding parse_digits
parse_u128-to_string n h =
    rw (parse_u128-IsNumeral (to_string n) (to_string-IsNumeral n)) (parse_digits-to_string n h)
