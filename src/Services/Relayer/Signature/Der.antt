-- ===== src/Services/Relayer/Signature/Der.antt =====
-- src/services/x402_relayer_aws_kms.rs: the reader of signatures takes back what DER writes.
use jecp_server.Prelude.{
  ℕ, zero, suc, ◌+◌, ◌-◌, ◌≤◌, ◌<◌, ◌≡◌, refl, ap, ◌∙◌, inl, inr, ◌⊎◌, [], ◌∷◌, ◌++◌, arith, length,
  length-append, drop, take-length-append, drop-length-append, ltb, ◌==◌, if◌then◌else◌, Bool-cases,
  ok, subst,
}
use mathlib.Core.List.{append-nil}
use jecp_server.Services.Relayer.BigEndian.{Bytes, zeros, strip_leading_zeros, Nat-cases, cons_eq}
use jecp_server.Services.Relayer.Signature.{
  strip_sign, right_aligned, read_der_int, read_pair, parse_sequence, parse_der_signature,
}

-- The content of a positive INTEGER: no leading zeros, but one where the first bit is set or there
-- is nothing else.
unfoldable pub with_sign : Bytes → Bytes
with_sign [] = 0 ∷ []
with_sign (b ∷ bs) = if ltb b 128 then b ∷ bs else 0 ∷ b ∷ bs

abbrev pub content : Bytes → Bytes
content v = with_sign (strip_leading_zeros v)

abbrev pub der_int : Bytes → Bytes
der_int v = 0x02 ∷ length (content v) ∷ content v

abbrev pub der_signature : Bytes → Bytes → Bytes
der_signature r s = 0x30 ∷ length (der_int r ++ der_int s) ∷ (der_int r ++ der_int s)

pub length-strip_leading_zeros-le : (v : Bytes) → length (strip_leading_zeros v) ≤ length v
unfolding strip_leading_zeros
length-strip_leading_zeros-le [] = omega arith
length-strip_leading_zeros-le (b ∷ bs) = ground (arith, length-strip_leading_zeros-le bs)

zeros-suc : (n : ℕ) (m : Bytes) → zeros n ++ 0 ∷ m ≡ zeros (suc n) ++ m
unfolding zeros
zeros-suc zero m = refl
zeros-suc (suc n) m = ap (◌∷◌ 0) (zeros-suc n m)

pad-eq : (n k : ℕ) (m : Bytes) → n ≡ k → zeros n ++ m ≡ zeros k ++ m
pad-eq n k m e = ap (λ (t : ℕ). zeros t ++ m) e

-- The zeros that were taken off, put back.
pub zeros-strip_leading_zeros :
    (v : Bytes) → zeros (length v - length (strip_leading_zeros v)) ++ strip_leading_zeros v ≡ v
unfolding zeros strip_leading_zeros
zeros-strip_leading_zeros [] = refl
zeros-strip_leading_zeros (b ∷ bs) = elim (Bool-cases (b == 0)) [
  | inl zero_first ↦ rw zero_first (
      pad-eq (suc (length bs) - length (strip_leading_zeros bs))
        (suc (length bs - length (strip_leading_zeros bs))) (strip_leading_zeros bs)
        (omega (arith, length-strip_leading_zeros-le bs))
      ∙ cons_eq (ground arith) (zeros-strip_leading_zeros bs))
  | inr other ↦ rw other (pad-eq (suc (length bs) - suc (length bs)) 0 (b ∷ bs) (omega arith))
]

right_aligned_zero : (m : Bytes) → length m < 32 → right_aligned (0 ∷ m) ≡ right_aligned m
unfolding right_aligned
right_aligned_zero m h =
    zeros-suc (32 - suc (length m)) m
    ∙ pad-eq (suc (32 - suc (length m))) (32 - length m) m (omega arith)

strip_sign_short : (m : Bytes) → length m ≤ 32 → strip_sign m ≡ m
unfolding strip_sign
strip_sign_short [] h = refl
strip_sign_short (b ∷ bs) h = ground arith

strip_sign_long : (m : Bytes) → length m ≡ 32 → strip_sign (0 ∷ m) ≡ m
unfolding strip_sign
strip_sign_long m h = ground arith

-- The content of an integer is at most 33 bytes, and the sign taken off it at most 32, which stand
-- for the same.
record IsContent (m c : Bytes) : Type 0 where
  some_bytes : 0 < length c
  few : length c ≤ 33
  stripped : length (strip_sign c) ≤ 32
  aligned : right_aligned (strip_sign c) ≡ right_aligned m

short_IsContent :
    (m c : Bytes) → 0 < length c → length c ≤ 32 → right_aligned c ≡ right_aligned m → IsContent m c
short_IsContent m c h h' e =
    let same = strip_sign_short c h' in
    record {
      some_bytes = h;
      few = omega arith;
      stripped = omega (arith, ap length same);
      aligned = ap right_aligned same ∙ e;
    }

with_sign-IsContent : (m : Bytes) → length m ≤ 32 → IsContent m (with_sign m)
unfolding with_sign
with_sign-IsContent [] h =
    short_IsContent [] (0 ∷ []) (omega arith) (omega arith) (right_aligned_zero [] (omega arith))
with_sign-IsContent (b ∷ bs) h = elim (Bool-cases (ltb b 128)) [
  | inl small ↦ rw small (short_IsContent (b ∷ bs) (b ∷ bs) (omega arith) h refl)
  | inr large ↦ rw large (signed (Nat-cases (length (b ∷ bs)) 32))
]
  where
    signed :
        (length (b ∷ bs) < 32) ⊎ ((32 < length (b ∷ bs)) ⊎ (length (b ∷ bs) ≡ 32))
        → IsContent (b ∷ bs) (0 ∷ b ∷ bs)
    signed (inl less) =
        short_IsContent (b ∷ bs) (0 ∷ b ∷ bs) (omega arith) (omega arith)
          (right_aligned_zero (b ∷ bs) less)
    signed (inr (inl more)) = absurd (omega arith)
    signed (inr (inr full)) =
        let same = strip_sign_long (b ∷ bs) full in
        record {
          some_bytes = omega arith;
          few = omega arith;
          stripped = omega (arith, ap length same);
          aligned = ap right_aligned same;
        }

read_der_int-content :
    (c rest : Bytes)
    → 0 < length c
    → length c ≤ 33
    → length (strip_sign c) ≤ 32
    → read_der_int (0x02 ∷ length c ∷ (c ++ rest))
      ≡ ok (record { value_be32 = right_aligned (strip_sign c); raw_len = length c })
unfolding read_der_int
read_der_int-content c rest some_bytes few stripped =
    rw (take-length-append c rest) (ground (arith, length-append c rest))

module _ (v rest : Bytes) (l : length v ≡ 32) where
  content-IsContent : IsContent (strip_leading_zeros v) (content v)
  content-IsContent =
      with_sign-IsContent (strip_leading_zeros v) (omega (arith, length-strip_leading_zeros-le v))

  right_aligned-strip_leading_zeros : right_aligned (strip_leading_zeros v) ≡ v
  unfolding right_aligned
  right_aligned-strip_leading_zeros =
      pad-eq (32 - length (strip_leading_zeros v)) (length v - length (strip_leading_zeros v))
        (strip_leading_zeros v) (omega arith)
      ∙ zeros-strip_leading_zeros v

  -- One integer is read back, whatever follows it.
  read_der_int-der_int :
      read_der_int (der_int v ++ rest)
      ≡ ok (record { value_be32 = v; raw_len = length (content v) })
  read_der_int-der_int =
      let c = content-IsContent in
      read_der_int-content (content v) rest c.some_bytes c.few c.stripped
      ∙ ap (λ (t : Bytes). ok (record { value_be32 = t; raw_len = length (content v) }))
          (c.aligned ∙ right_aligned-strip_leading_zeros)

parse_sequence_whole :
    (seq rest : Bytes) → parse_sequence (0x30 ∷ length seq ∷ (seq ++ rest)) ≡ read_pair seq
unfolding parse_sequence read_pair
parse_sequence_whole seq rest =
    rw (take-length-append seq rest) (ground (arith, length-append seq rest))

parse_der_signature_long :
    (der : Bytes) → 8 ≤ length der → parse_der_signature der ≡ parse_sequence der
unfolding parse_der_signature
parse_der_signature_long der h = ground arith

module _ (r s rest : Bytes) (hr : length r ≡ 32) (hs : length s ≡ 32) where
  second_int : drop (2 + length (content r)) (der_int r ++ der_int s) ≡ der_int s
  second_int =
      ap (λ (n : ℕ). drop n (der_int r ++ der_int s)) {x = 2 + length (content r)}
        {y = length (der_int r)} (omega arith)
      ∙ drop-length-append (der_int r) (der_int s)

  read_pair-der_ints : read_pair (der_int r ++ der_int s) ≡ ok (r, s)
  unfolding read_pair
  read_pair-der_ints = rw (read_der_int-der_int r (der_int s) hr) (
      rw second_int (
        rw
          (subst
            (λ (t : Bytes).
              read_der_int t ≡ ok (record { value_be32 = s; raw_len = length (content s) }))
            (append-nil (der_int s)) (read_der_int-der_int s [] hs))
          (ground (arith, length-append (der_int r) (der_int s)))))

  -- The signature that DER writes for two arrays of 32 bytes is read back as the two, whatever bytes
  -- follow the sequence.
  pub parse_der_signature-der_signature :
      parse_der_signature (der_signature r s ++ rest) ≡ ok (r, s)
  parse_der_signature-der_signature =
      parse_der_signature_long (der_signature r s ++ rest) (
        omega (
          arith,
          length-append (der_int r ++ der_int s) rest,
          length-append (der_int r) (der_int s),
          (content-IsContent r [] hr).some_bytes,
          (content-IsContent s [] hs).some_bytes,
        ))
      ∙ (parse_sequence_whole (der_int r ++ der_int s) rest ∙ read_pair-der_ints)
