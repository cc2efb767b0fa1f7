-- ===== src/Services/Relayer/Signature/LowS.antt =====
-- src/services/x402_relayer_aws_kms.rs: the loops over bytes compare and subtract numbers.
use jecp_server.Prelude.{
  ℕ, suc, ◌+◌, ◌*◌, ◌-◌, ◌≤◌, ◌<◌, ◌≡◌, refl, ap, sym, ◌∙◌, inl, inr, Bool, true, false, [], ◌∷◌,
  arith, length, ltb, ltb→lt, leb, subst, if◌then◌else◌, Bool-cases,
}
use jecp_server.Services.Relayer.BigEndian.{
  Bytes, IsBytes, shift_bytes, of_be, shift_bytes-lt, Nat-cases,
}
use jecp_server.Services.Relayer.Signature.{
  secp256k1_n, secp256k1_n_half, exceeds, is_high_s, borrow_byte, subtract, normalize_s,
}

exceeds_gt : (x y : ℕ) (xs ys : Bytes) → y < x → exceeds (x ∷ xs) (y ∷ ys) ≡ true
unfolding exceeds
exceeds_gt x y xs ys h = ground arith

exceeds_lt : (x y : ℕ) (xs ys : Bytes) → x < y → exceeds (x ∷ xs) (y ∷ ys) ≡ false
unfolding exceeds
exceeds_lt x y xs ys h = ground arith

exceeds_eq : (x y : ℕ) (xs ys : Bytes) → x ≡ y → exceeds (x ∷ xs) (y ∷ ys) ≡ exceeds xs ys
unfolding exceeds
exceeds_eq x y xs ys h = ground arith

-- The comparison of bytes is that of the numbers, behind any number that both follow.
pub exceeds_compares :
    (a : ℕ) (xs ys : Bytes)
    → IsBytes xs
    → IsBytes ys
    → length xs ≡ length ys
    → exceeds xs ys ≡ ltb (shift_bytes a ys) (shift_bytes a xs)
unfolding shift_bytes
exceeds_compares a [] [] hx hy l = exceeds_nil ∙ ground arith
  where
    exceeds_nil : exceeds [] [] ≡ false
    exceeds_nil = unfold exceeds in refl
exceeds_compares a (x ∷ xs) (y ∷ ys) hx hy l = elim (Nat-cases x y) [
  | inl less ↦
      exceeds_lt x y xs ys less
      ∙ ground (
        arith,
        shift_bytes-lt (a * 256 + x) (a * 256 + y) xs ys hx.1 hy.1 (omega arith) (omega arith),
      )
  | inr (inl more) ↦
      exceeds_gt x y xs ys more
      ∙ ground (
        arith,
        shift_bytes-lt (a * 256 + y) (a * 256 + x) ys xs hy.1 hx.1 (omega arith) (omega arith),
      )
  | inr (inr same) ↦
      exceeds_eq x y xs ys same
      ∙ (exceeds_compares (a * 256 + x) xs ys hx.1 hy.1 (omega arith)
          ∙ ap (λ (t : ℕ). ltb (shift_bytes (a * 256 + t) ys) (shift_bytes (a * 256 + x) xs)) same)
]
exceeds_compares a [] (y ∷ ys) hx hy l = absurd (omega arith)
exceeds_compares a (x ∷ xs) [] hx hy l = absurd (omega arith)

-- One round leaves a byte, and a borrow that is a bit.
borrow_byte-lem :
    (n s borrow : ℕ)
    → n < 256
    → s < 256
    → borrow ≤ 1
    → ((borrow_byte n s borrow).0 < 256)
      × ((borrow_byte n s borrow).1 ≤ 1)
      × (n + (borrow_byte n s borrow).1 * 256 ≡ s + borrow + (borrow_byte n s borrow).0)
unfolding borrow_byte
borrow_byte-lem n s borrow hn hs hb = ground arith

-- What the whole loop leaves: bytes, as many, that make up the difference, and a borrow only where
-- the second number is the larger.
record IsDifference (ns ss : Bytes) (r : Bytes × ℕ) : Type 0 where
  are_bytes : IsBytes r.0
  same_length : length r.0 ≡ length ns
  a_bit : r.1 ≤ 1
  sums_up : (a b c : ℕ) → a ≡ b + c + r.1 → shift_bytes a ns ≡ shift_bytes b ss + shift_bytes c r.0
  no_borrow : (a b : ℕ) → r.1 ≡ 1 → a ≤ b → shift_bytes a ns < shift_bytes b ss

module _ (n s : ℕ) (ns ss : Bytes) (hn : IsBytes (n ∷ ns)) (hs : IsBytes (s ∷ ss))
    (l : length ns ≡ length ss) (r : Bytes × ℕ) (d : IsDifference ns ss r) where
  IsDifference-step :
      IsDifference (n ∷ ns) (s ∷ ss) ((borrow_byte n s r.1).0 ∷ r.0, (borrow_byte n s r.1).1)
  unfolding shift_bytes
  IsDifference-step =
      let (small, bit, sum) = borrow_byte-lem n s r.1 hn.0 hs.0 d.a_bit in
      record {
        are_bytes = (small, d.are_bytes);
        same_length = ap suc d.same_length;
        a_bit = bit;
        sums_up = λ (a b c : ℕ) e.
            d.sums_up (a * 256 + n) (b * 256 + s) (c * 256 + (borrow_byte n s r.1).0) (omega arith);
        no_borrow = λ (a b : ℕ) one le. elim (Nat-cases r.1 1) [
          | inl none_before ↦
              shift_bytes-lt (a * 256 + n) (b * 256 + s) ns ss hn.1 hs.1 l (omega arith)
          | inr (inl more) ↦ absurd (omega (arith, d.a_bit))
          | inr (inr before) ↦ d.no_borrow (a * 256 + n) (b * 256 + s) before (omega arith)
        ];
      }

subtract-IsDifference :
    (ns ss : Bytes)
    → IsBytes ns
    → IsBytes ss
    → length ns ≡ length ss
    → IsDifference ns ss (subtract ns ss)
unfolding subtract shift_bytes
subtract-IsDifference [] [] hn hs l = record {
  are_bytes = tt;
  same_length = refl;
  a_bit = omega arith;
  sums_up = λ (a b c : ℕ) e. omega arith;
  no_borrow = λ (a b : ℕ) one le. absurd (omega arith);
}
subtract-IsDifference (n ∷ ns) (s ∷ ss) hn hs l =
    IsDifference-step n s ns ss hn hs (omega arith) (subtract ns ss)
      (subtract-IsDifference ns ss hn.1 hs.1 (omega arith))
subtract-IsDifference [] (s ∷ ss) hn hs l = absurd (omega arith)
subtract-IsDifference (n ∷ ns) [] hn hs l = absurd (omega arith)

-- The numbers that the two constants stand for.
pub order_lem : of_be secp256k1_n ≡ 2 * of_be secp256k1_n_half + 1
unfolding of_be shift_bytes
order_lem = refl

n_IsBytes : IsBytes secp256k1_n
n_IsBytes = omega arith

half_IsBytes : IsBytes secp256k1_n_half
half_IsBytes = omega arith

-- What the result promises of `s`.
abbrev pub IsLow : Bytes → Bytes × Bool → Type 0
IsLow s r =
    (of_be r.0
      ≡ (if leb (of_be s) (of_be secp256k1_n_half) then of_be s else of_be secp256k1_n - of_be s))
    × (of_be r.0 ≤ of_be secp256k1_n_half)
    × (length r.0 ≡ 32)
    × IsBytes r.0
    × (r.1 ≡ ltb (of_be secp256k1_n_half) (of_be s))

is_high_s-lem :
    (s : Bytes) → IsBytes s → length s ≡ 32 → is_high_s s ≡ ltb (of_be secp256k1_n_half) (of_be s)
unfolding is_high_s of_be
is_high_s-lem s hs l = exceeds_compares 0 s secp256k1_n_half hs half_IsBytes (omega arith)

normalize_s_high :
    (s : Bytes) → is_high_s s ≡ true → normalize_s s ≡ ((subtract secp256k1_n s).0, true)
unfolding normalize_s
normalize_s_high s e = rw e

normalize_s_low : (s : Bytes) → is_high_s s ≡ false → normalize_s s ≡ (s, false)
unfolding normalize_s
normalize_s_low s e = rw e

module _ (s : Bytes) (hs : IsBytes s) (l : length s ≡ 32) where
  subtract-IsLow :
      of_be s < of_be secp256k1_n
      → ltb (of_be secp256k1_n_half) (of_be s) ≡ true
      → IsLow s ((subtract secp256k1_n s).0, true)
  unfolding of_be
  subtract-IsLow below high =
      let d = subtract-IsDifference secp256k1_n s n_IsBytes hs (omega arith) in
      let sum = difference d in
      (
        ground (arith, order_lem),
        omega (arith, order_lem, ltb→lt _ _ high),
        d.same_length,
        d.are_bytes,
        sym high,
      )
    where
      difference :
          IsDifference secp256k1_n s (subtract secp256k1_n s)
          → of_be secp256k1_n ≡ of_be s + of_be (subtract secp256k1_n s).0
      difference d = elim (Nat-cases (subtract secp256k1_n s).1 1) [
        | inl none_left ↦ d.sums_up 0 0 0 (omega arith)
        | inr (inl more) ↦ absurd (omega (arith, d.a_bit))
        | inr (inr left) ↦ absurd (omega (arith, d.no_borrow 0 0 left (omega arith)))
      ]

  already-IsLow : ltb (of_be secp256k1_n_half) (of_be s) ≡ false → IsLow s (s, false)
  already-IsLow low = (ground arith, ground arith, l, hs, sym low)

-- For 32 bytes below the order, the result is 32 bytes for the smaller of `s` and the order less `s`,
-- which is no more than half of the order, and the flag tells which it is.
pub normalize_s-IsLow :
    (s : Bytes) → IsBytes s → length s ≡ 32 → of_be s < of_be secp256k1_n → IsLow s (normalize_s s)
normalize_s-IsLow s hs l below =
    let compared = is_high_s-lem s hs l in
    elim (Bool-cases (is_high_s s)) [
      | inl high ↦
          subst (IsLow s) (sym (normalize_s_high s high))
            (subtract-IsLow s hs l below (sym compared ∙ high))
      | inr low ↦
          subst (IsLow s) (sym (normalize_s_low s low)) (already-IsLow s hs l (sym compared ∙ low))
    ]
