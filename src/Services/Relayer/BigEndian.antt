-- ===== src/Services/Relayer/BigEndian.antt =====
-- Big-endian bytes of src/services/x402_relayer_aws_kms.rs. A byte is a number below 256.
use jecp_server.Prelude.{
  ℕ, zero, suc, ◌+◌, ◌*◌, ◌/◌, ◌%◌, ◌<◌, ◌≡◌, refl, ap, sym, ◌∙◌, List, [], ◌∷◌, ◌++◌, arith,
  length, length-append, All, All-snoc, ◌==◌, if◌then◌else◌, inl, inr, Bool-cases, ◌⊎◌, ltb, ltb→lt,
}
use native.Mathlib.Nat.{div-add-mod}

abbrev pub Bytes : Type 0
Bytes = List ℕ

abbrev pub IsByte : ℕ → Type 0
IsByte b = b < 256

abbrev pub IsBytes : Bytes → Type 0
IsBytes = All IsByte

-- The number whose digits follow those of `acc`.
unfoldable pub shift_bytes : ℕ → Bytes → ℕ
shift_bytes acc [] = acc
shift_bytes acc (b ∷ bs) = shift_bytes (acc * 256 + b) bs

-- `from_be_bytes`.
unfoldable pub of_be : Bytes → ℕ
of_be = shift_bytes 0

-- `to_be_bytes` of a word of the given number of bytes.
unfoldable pub to_be : ℕ → ℕ → Bytes
to_be zero v = []
to_be (suc n) v = to_be n (v / 256) ++ v % 256 ∷ []

-- `strip_leading_zeros`.
unfoldable pub strip_leading_zeros : Bytes → Bytes
strip_leading_zeros [] = []
strip_leading_zeros (b ∷ bs) = if b == 0 then strip_leading_zeros bs else b ∷ bs

unfoldable pub zeros : ℕ → Bytes
zeros zero = []
zeros (suc n) = 0 ∷ zeros n

-- How many numbers the bytes tell apart.
unfoldable pub words : ℕ → ℕ
words zero = 1
words (suc n) = 256 * words n

pub shift_bytes-lt :
    (a b : ℕ) (xs ys : Bytes)
    → IsBytes xs
    → IsBytes ys
    → length xs ≡ length ys
    → a < b
    → shift_bytes a xs < shift_bytes b ys
unfolding shift_bytes
shift_bytes-lt a b [] [] hx hy l h = h
shift_bytes-lt a b (x ∷ xs) (y ∷ ys) hx hy l h =
    shift_bytes-lt (a * 256 + x) (b * 256 + y) xs ys hx.1 hy.1 (omega arith) (omega (arith, hx.0))
shift_bytes-lt a b [] (y ∷ ys) hx hy l h = absurd (omega arith)
shift_bytes-lt a b (x ∷ xs) [] hx hy l h = absurd (omega arith)

pub shift_bytes-append :
    (a : ℕ) (xs ys : Bytes) → shift_bytes a (xs ++ ys) ≡ shift_bytes (shift_bytes a xs) ys
unfolding shift_bytes
shift_bytes-append a [] ys = refl
shift_bytes-append a (x ∷ xs) ys = shift_bytes-append (a * 256 + x) xs ys

pub Nat-cases : (x y : ℕ) → (x < y) ⊎ ((y < x) ⊎ (x ≡ y))
Nat-cases x y = elim (Bool-cases (ltb x y)) [
  | inl less ↦ inl (ltb→lt x y less)
  | inr other ↦ elim (Bool-cases (ltb y x)) [
    | inl more ↦ inr (inl (ltb→lt y x more))
    | inr neither ↦ inr (inr (ground arith))
  ]
]

pub cons_eq : {x y : ℕ} {xs ys : Bytes} → x ≡ y → xs ≡ ys → x ∷ xs ≡ y ∷ ys
cons_eq e es = cc

-- Bytes of one length that stand for one number are the same.
pub shift_bytes-injective :
    (a : ℕ) (xs ys : Bytes)
    → IsBytes xs
    → IsBytes ys
    → length xs ≡ length ys
    → shift_bytes a xs ≡ shift_bytes a ys
    → xs ≡ ys
unfolding shift_bytes
shift_bytes-injective a [] [] hx hy l e = refl
shift_bytes-injective a (x ∷ xs) (y ∷ ys) hx hy l e = elim (Nat-cases x y) [
  | inl less ↦ absurd (
      omega (
        arith,
        e,
        shift_bytes-lt (a * 256 + x) (a * 256 + y) xs ys hx.1 hy.1 (omega arith) (omega arith),
      ))
  | inr (inl more) ↦ absurd (
      omega (
        arith,
        e,
        shift_bytes-lt (a * 256 + y) (a * 256 + x) ys xs hy.1 hx.1 (omega arith) (omega arith),
      ))
  | inr (inr same) ↦ cons_eq same (
      shift_bytes-injective (a * 256 + x) xs ys hx.1 hy.1 (omega arith)
        (e ∙ ap (λ (t : ℕ). shift_bytes (a * 256 + t) ys) (sym same)))
]
shift_bytes-injective a [] (y ∷ ys) hx hy l e = absurd (omega arith)
shift_bytes-injective a (x ∷ xs) [] hx hy l e = absurd (omega arith)

pub length-to_be : (n v : ℕ) → length (to_be n v) ≡ n
unfolding to_be
length-to_be zero v = refl
length-to_be (suc n) v =
    length-append (to_be n (v / 256)) (v % 256 ∷ []) ∙ omega (arith, length-to_be n (v / 256))

pub to_be-IsBytes : (n v : ℕ) → IsBytes (to_be n v)
unfolding to_be
to_be-IsBytes zero v = tt
to_be-IsBytes (suc n) v =
    All-snoc IsByte (to_be n (v / 256)) (v % 256) (to_be-IsBytes n (v / 256)) (omega arith)

-- A number below `words n` is read back from its `n` bytes.
pub of_be-to_be : (n v : ℕ) → v < words n → of_be (to_be n v) ≡ v
unfolding to_be words shift_bytes of_be
of_be-to_be zero v h = omega arith
of_be-to_be (suc n) v h =
    shift_bytes-append 0 (to_be n (v / 256)) (v % 256 ∷ [])
    ∙ (ap (λ (t : ℕ). t * 256 + v % 256) (of_be-to_be n (v / 256) (omega arith))
        ∙ omega (arith, div-add-mod v 256))

pub of_be-strip_leading_zeros : (bs : Bytes) → of_be (strip_leading_zeros bs) ≡ of_be bs
unfolding shift_bytes strip_leading_zeros of_be
of_be-strip_leading_zeros [] = refl
of_be-strip_leading_zeros (b ∷ bs) = elim (Bool-cases (b == 0)) [
  | inl zero_first ↦ rw zero_first (
      of_be-strip_leading_zeros bs
      ∙ ap (λ (t : ℕ). shift_bytes t bs) {x = 0} {y = 0 * 256 + b} (ground arith))
  | inr other ↦ rw other
]

pub length-zeros : (n : ℕ) → length (zeros n) ≡ n
unfolding zeros
length-zeros zero = refl
length-zeros (suc n) = ap suc (length-zeros n)
