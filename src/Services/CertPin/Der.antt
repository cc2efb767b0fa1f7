-- ===== src/Services/CertPin/Der.antt =====
-- Laws of the DER walker of src/services/x402_cert_pin.rs.
use Prim.Native.Nat.{ℕ, zero, suc, ◌+◌, ◌/◌, ◌%◌, ◌≤◌, ◌<◌}
use mathlib.Core.List.{append_assoc}
use jecp_server.Prelude.{
  ◌≡◌, refl, ap, [], ◌∷◌, ◌++◌, arith, Text, ltb, ◌⊎◌, inl, inr, Bool-cases, Result-cases,
  if◌then◌else◌, length, length-append, take, drop, take-append-drop, Result, ok, err,
  take-length-append, drop-length-append,
}
use jecp_server.Services.CertPin.{
  DerError, der_sequence, skip_empty, skip_truncated, der_length, der_take_tlv, der_skip_tlv,
  take_empty, take_truncated,
}

-- The length field of DER: short below 128, else the number of bytes and the bytes.
unfoldable pub encode_length : ℕ → Text
encode_length n =
    if ltb n 128
    then n ∷ []
    else if ltb n 256
    then 0x81 ∷ n ∷ []
    else if ltb n 65536
    then 0x82 ∷ n / 256 ∷ n % 256 ∷ []
    else if ltb n 16777216
    then 0x83 ∷ n / 65536 ∷ n / 256 % 256 ∷ n % 256 ∷ []
    else 0x84 ∷ n / 16777216 ∷ n / 65536 % 256 ∷ n / 256 % 256 ∷ n % 256 ∷ []

pub der_length-encode_length :
    (n : ℕ) (rest : Text)
    → n < 4294967296
    → der_length (encode_length n ++ rest) ≡ ok (n, length (encode_length n))
unfolding encode_length der_length
der_length-encode_length n rest h = ground arith

-- One TLV with a minimal length.
unfoldable pub encode_tlv : ℕ → Text → Text
encode_tlv tag value = tag ∷ encode_length (length value) ++ value

drop-prefix : (n : ℕ) (xs ys : Text) → n ≡ length xs → drop n (xs ++ ys) ≡ ys
drop-prefix n xs ys e = rw e (drop-length-append xs ys)

take-prefix : (n : ℕ) (xs ys : Text) → n ≡ length xs → take n (xs ++ ys) ≡ xs
take-prefix n xs ys e = rw e (take-length-append xs ys)

module _ (tag : ℕ) (value rest : Text) (small : length value < 4294967296) where
  header-length :
      der_length ((encode_length (length value) ++ value) ++ rest)
      ≡ ok (length value, length (encode_length (length value)))
  header-length =
      rw (append_assoc (encode_length (length value)) value rest)
        (der_length-encode_length (length value) (value ++ rest) small)

  whole-length :
      length (tag ∷ encode_length (length value) ++ value)
      ≡ 1 + length (encode_length (length value)) + length value
  whole-length = omega (arith, length-append (encode_length (length value)) value)

  -- Skipping an encoded TLV leaves what follows it.
  pub der_skip_tlv-encode_tlv : der_skip_tlv (encode_tlv tag value ++ rest) ≡ ok rest
  unfolding der_skip_tlv encode_tlv
  der_skip_tlv-encode_tlv = ground (
    arith,
    header-length,
    whole-length,
    length-append (encode_length (length value) ++ value) rest,
    drop-prefix (1 + length (encode_length (length value)) + length value)
        (tag ∷ encode_length (length value) ++ value) rest,
  )

  -- Taking one gives its bytes, tag and length included.
  pub der_take_tlv-encode_tlv :
      der_take_tlv (encode_tlv tag value ++ rest) ≡ ok (encode_tlv tag value)
  unfolding der_take_tlv encode_tlv
  der_take_tlv-encode_tlv = ground (
    arith,
    header-length,
    whole-length,
    length-append (encode_length (length value) ++ value) rest,
    take-prefix (1 + length (encode_length (length value)) + length value)
        (tag ∷ encode_length (length value) ++ value) rest,
  )

module _ (value rest : Text) (small : length value < 4294967296) where
  -- A SEQUENCE gives its contents and what follows it.
  pub der_sequence-encode_tlv : der_sequence (encode_tlv 0x30 value ++ rest) ≡ ok (value, rest)
  unfolding der_sequence encode_tlv
  der_sequence-encode_tlv = ground (
    arith,
    header-length 0x30 value rest small,
    whole-length 0x30 value rest small,
    length-append (encode_length (length value) ++ value) rest,
    append_assoc (encode_length (length value)) value rest,
    drop-prefix (1 + length (encode_length (length value))) (0x30 ∷ encode_length (length value))
        (value ++ rest),
    take-prefix (length value) value rest,
    drop-prefix (1 + length (encode_length (length value)) + length value)
        (0x30 ∷ encode_length (length value) ++ value) rest,
  )

pub length-encode_tlv-gt : (t : ℕ) (v : Text) → length v < length (encode_tlv t v)
unfolding encode_tlv encode_length
length-encode_tlv-gt t v = ground (arith, length-append (encode_length (length v)) v)

-- On any input, `der_take_tlv` and `der_skip_tlv` both fail, or split the input in two, the first
-- part with a tag and a length byte at least.
abbrev pub Splits : Text → Result DerError Text → Result DerError Text → Type 0
Splits input taken skipped =
    ((tlv : Text) × (rest : Text) × (taken ≡ ok tlv)
      × (skipped ≡ ok rest)
      × (tlv ++ rest ≡ input)
      × (2 ≤ length tlv))
    ⊎ ((e : DerError) × (f : DerError) × (taken ≡ err e) × (skipped ≡ err f))

consumed-pos : (input : Text) (len more : ℕ) → der_length input ≡ ok (len, more) → 1 ≤ more
unfolding der_length
consumed-pos [] len more h = ground arith
consumed-pos (first ∷ rest) len more h = ground arith

length-take-of-le : (n : ℕ) (xs : Text) → n ≤ length xs → length (take n xs) ≡ n
length-take-of-le zero xs h = refl
length-take-of-le (suc n) [] h = absurd (omega arith)
length-take-of-le (suc n) (x ∷ xs) h = ap suc (length-take-of-le n xs (omega arith))

pub take-skip-Splits : (input : Text) → Splits input (der_take_tlv input) (der_skip_tlv input)
unfolding der_take_tlv der_skip_tlv
take-skip-Splits [] = inr (take_empty, skip_empty, refl, refl)
take-skip-Splits (tag ∷ rest) = elim (Result-cases (der_length rest)) [
  | inr (e, q) ↦ inr (e, e, ground (arith, q), ground (arith, q))
  | inl ((len, more), q) ↦
      let total : ℕ = 1 + more + len in
      elim (Bool-cases (ltb (length (tag ∷ rest)) total)) [
        | inl short ↦ inr (take_truncated, skip_truncated, ground (arith, q), ground (arith, q))
        | inr enough ↦ inl (
          take total (tag ∷ rest),
          drop total (tag ∷ rest),
          ground (arith, q),
          ground (arith, q),
          take-append-drop total (tag ∷ rest),
          ground (arith, length-take-of-le total (tag ∷ rest), consumed-pos rest len more q),
        )
      ]
]
