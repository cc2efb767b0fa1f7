-- ===== src/Services/Relayer/RlpHeaders.antt =====
-- The headers of RLP, as alloy_rlp documents them: one byte, or one for the number of the bytes of the
-- length and then these.
use jecp_server.Prelude.{
  ℕ, ◌+◌, ◌-◌, ◌^◌, ◌≤◌, ◌<◌, ◌≡◌, refl, ap, ◌∙◌, Bool, true, false, Option, none, some, [], ◌∷◌,
  ◌++◌, ltb, if◌then◌else◌, length, take, drop, arith, take-length-append, drop-length-append, inl,
  inr, Bool-cases, ltb→lt,
}
use jecp_server.Services.Relayer.BigEndian.{
  Bytes, of_be, to_be, words, shift_bytes, strip_leading_zeros, of_be-strip_leading_zeros,
  of_be-to_be, length-to_be,
}
use jecp_server.Services.Relayer.Signature.Der.{length-strip_leading_zeros-le}
use jecp_server.Services.Relayer.Transaction.{RlpHeader}

abbrev base : Bool → ℕ
base false = 0x80
base true = 0xc0

abbrev length_bytes : ℕ → Bytes
length_bytes n = strip_leading_zeros (to_be 8 n)

unfoldable pub encode_header : Bool → ℕ → Bytes
encode_header list n =
    if ltb n 56
    then (base list + n) ∷ []
    else (base list + 55 + length (length_bytes n)) ∷ length_bytes n

unfoldable pub long_header : Bool → ℕ → Bytes → Option ((Bool × ℕ) × Bytes)
long_header list k rest = some ((list, of_be (take k rest)), drop k rest)

unfoldable pub read_header : Bytes → Option ((Bool × ℕ) × Bytes)
unfolding long_header
read_header [] = none
read_header (b ∷ rest) =
    if ltb b 0x80
    then none
    else if ltb b 0xb8
    then some ((false, b - 0x80), rest)
    else if ltb b 0xc0
    then long_header false (b - 0xb7) rest
    else if ltb b 0xf8
    then some ((true, b - 0xc0), rest)
    else long_header true (b - 0xf7) rest

of_be-length_bytes : (n : ℕ) → n < 2 ^ 64 → of_be (length_bytes n) ≡ n
unfolding words
of_be-length_bytes n h = of_be-strip_leading_zeros (to_be 8 n) ∙ of_be-to_be 8 n h

length-length_bytes-pos : (n : ℕ) → n < 2 ^ 64 → 56 ≤ n → 0 < length (length_bytes n)
unfolding of_be shift_bytes
length-length_bytes-pos n h big = some_byte (length_bytes n) (of_be-length_bytes n h)
  where
    some_byte : (bs : Bytes) → of_be bs ≡ n → 0 < length bs
    some_byte [] e = absurd (omega arith)
    some_byte (b ∷ bs) e = omega arith

read_long :
    (list : Bool) (n k : ℕ) (rest : Bytes)
    → n < 2 ^ 64
    → k ≡ length (length_bytes n)
    → long_header list k (length_bytes n ++ rest) ≡ some ((list, n), rest)
unfolding long_header
read_long list n k rest h e =
    let bytes = length_bytes n in
    ap (λ (t : ℕ). long_header list t (bytes ++ rest)) e
    ∙ (ap (λ (t : Bytes). some ((list, of_be t), drop (length bytes) (bytes ++ rest)))
          (take-length-append bytes rest)
        ∙ (ap (λ (t : Bytes). some ((list, of_be bytes), t)) (drop-length-append bytes rest)
            ∙ ap (λ (t : ℕ). some ((list, t), rest)) (of_be-length_bytes n h)))

read_short :
    (list : Bool) (n : ℕ) (rest : Bytes)
    → n < 56
    → read_header ((base list + n) ∷ rest) ≡ some ((list, n), rest)
unfolding read_header
read_short false n rest h = ground arith
read_short true n rest h = ground arith

read_header_long :
    (list : Bool) (k : ℕ) (rest : Bytes)
    → 0 < k
    → k ≤ 8
    → read_header ((base list + 55 + k) ∷ rest) ≡ long_header list k rest
unfolding read_header
read_header_long false k rest h h' = ground arith
read_header_long true k rest h h' = ground arith

pub read_header-encode_header :
    (list : Bool) (n : ℕ) (rest : Bytes)
    → n < 2 ^ 64
    → read_header (encode_header list n ++ rest) ≡ some ((list, n), rest)
unfolding encode_header
read_header-encode_header list n rest h = elim (Bool-cases (ltb n 56)) [
  | inl short ↦ rw short (read_short list n rest (ltb→lt n 56 short))
  | inr long ↦ rw long (
      read_header_long list (length (length_bytes n)) (length_bytes n ++ rest)
        (length-length_bytes-pos n h (ground arith))
        (omega (arith, length-strip_leading_zeros-le (to_be 8 n), length-to_be 8 n))
      ∙ read_long list n (length (length_bytes n)) rest h refl)
]

pub read_header_byte : (b : ℕ) (rest : Bytes) → b < 0x80 → read_header (b ∷ rest) ≡ none
unfolding read_header
read_header_byte b rest h = ground arith

abbrev pub rlp_header : RlpHeader
rlp_header = record {
  encode = encode_header;
  read = read_header;
  read-encode = read_header-encode_header;
  read_byte = read_header_byte;
}
