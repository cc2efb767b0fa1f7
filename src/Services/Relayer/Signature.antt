-- ===== src/Services/Relayer/Signature.antt =====
-- src/services/x402_relayer_aws_kms.rs: the low form of `s`, and the reading of the key service's
-- signatures and public key. An array is the list of its bytes.
pub mod LowS
pub mod Der
use jecp_server.Prelude.{
  ℕ, ◌+◌, ◌-◌, Bool, true, false, not, ◌&&◌, ◌||◌, List, [], ◌∷◌, ◌++◌, ltb, ◌==◌, if◌then◌else◌,
  length, take, drop, Result, ok, err, guard, ◌>>=◌, ◌>>◌,
}
use Prim.Native.Nat.{compare, Ordering}
use jecp_server.Services.Relayer.BigEndian.{Bytes, zeros}

abbrev pub secp256k1_n : Bytes
secp256k1_n =
    0xFF ∷ 0xFF ∷ 0xFF ∷ 0xFF ∷ 0xFF ∷ 0xFF ∷ 0xFF ∷ 0xFF ∷ 0xFF ∷ 0xFF ∷ 0xFF ∷ 0xFF ∷ 0xFF ∷ 0xFF
    ∷ 0xFF ∷ 0xFE ∷ 0xBA ∷ 0xAE ∷ 0xDC ∷ 0xE6 ∷ 0xAF ∷ 0x48 ∷ 0xA0 ∷ 0x3B ∷ 0xBF ∷ 0xD2 ∷ 0x5E
    ∷ 0x8C ∷ 0xD0 ∷ 0x36 ∷ 0x41 ∷ 0x41 ∷ []

abbrev pub secp256k1_n_half : Bytes
secp256k1_n_half =
    0x7F ∷ 0xFF ∷ 0xFF ∷ 0xFF ∷ 0xFF ∷ 0xFF ∷ 0xFF ∷ 0xFF ∷ 0xFF ∷ 0xFF ∷ 0xFF ∷ 0xFF ∷ 0xFF ∷ 0xFF
    ∷ 0xFF ∷ 0xFF ∷ 0x5D ∷ 0x57 ∷ 0x6E ∷ 0x73 ∷ 0x57 ∷ 0xA4 ∷ 0x50 ∷ 0x1D ∷ 0xDF ∷ 0xE9 ∷ 0x2F
    ∷ 0x46 ∷ 0x68 ∷ 0x1B ∷ 0x20 ∷ 0xA0 ∷ []

-- The loop over both arrays from their first byte.
unfoldable pub exceeds : Bytes → Bytes → Bool
exceeds (x ∷ xs) (y ∷ ys) = elim (compare x y) [
  | Ordering.gt ↦ true
  | Ordering.lt ↦ false
  | Ordering.eq ↦ exceeds xs ys
]
exceeds [] ys = false
exceeds (x ∷ xs) [] = false

unfoldable pub is_high_s : Bytes → Bool
unfolding exceeds
is_high_s s = exceeds s secp256k1_n_half

-- One round of the subtraction: the byte, and the borrow for the next.
unfoldable pub borrow_byte : ℕ → ℕ → ℕ → ℕ × ℕ
borrow_byte n_i s_i borrow =
    if ltb n_i (s_i + borrow) then (n_i + 256 - s_i - borrow, 1) else (n_i - s_i - borrow, 0)

-- The loop from the last byte to the first: the bytes, and the borrow that is left.
unfoldable pub subtract : Bytes → Bytes → Bytes × ℕ
unfolding borrow_byte
subtract (n ∷ ns) (s ∷ ss) =
    let (out, borrow) = subtract ns ss in
    let (byte, next) = borrow_byte n s borrow in (byte ∷ out, next)
subtract [] ss = ([], 0)
subtract (n ∷ ns) [] = ([], 0)

unfoldable pub normalize_s : Bytes → Bytes × Bool
unfolding is_high_s subtract
normalize_s s_in = if is_high_s s_in then ((subtract secp256k1_n s_in).0, true) else (s_in, false)

pub data DerError : Type 0 where
  short : DerError
  bad_seq_tag : ℕ → DerError
  bad_int_tag : ℕ → DerError
  int_too_large : ℕ → DerError
  trailing : DerError

pub record DerInt : Type 0 where
  pub value_be32 : Bytes
  pub raw_len : ℕ

-- A sign byte before 32 others is taken off.
unfoldable pub strip_sign : Bytes → Bytes
strip_sign [] = []
strip_sign (b ∷ bs) = if length (b ∷ bs) == 33 && b == 0 then bs else b ∷ bs

unfoldable pub right_aligned : Bytes → Bytes
unfolding zeros
right_aligned stripped = zeros (32 - length stripped) ++ stripped

unfoldable pub read_der_int : Bytes → Result DerError DerInt
unfolding strip_sign right_aligned
read_der_int [] = err short
read_der_int (tag ∷ []) = err short
read_der_int (tag ∷ len ∷ buf) = do
  guard (tag == 0x02) (bad_int_tag tag)
  guard (not (len == 0 || ltb 33 len)) (int_too_large len)
  guard (not (ltb (length buf) len)) short
  let stripped = strip_sign (take len buf)
  guard (not (ltb 32 (length stripped))) (int_too_large (length stripped))
  ok (record { value_be32 = right_aligned stripped; raw_len = len })

-- The two integers of a sequence that is exactly they.
unfoldable pub read_pair : Bytes → Result DerError (Bytes × Bytes)
unfolding read_der_int
read_pair sequence = do
  r ← read_der_int sequence
  s ← read_der_int (drop (2 + r.raw_len) sequence)
  guard (2 + r.raw_len + (2 + s.raw_len) == length sequence) trailing
  ok (r.value_be32, s.value_be32)

unfoldable pub parse_sequence : Bytes → Result DerError (Bytes × Bytes)
unfolding read_pair
parse_sequence [] = err short
parse_sequence (tag ∷ []) = guard (tag == 0x30) (bad_seq_tag tag) >> err short
parse_sequence (tag ∷ seq_len ∷ rest) = do
  guard (tag == 0x30) (bad_seq_tag tag)
  guard (not (ltb (length rest) seq_len)) short
  read_pair (take seq_len rest)

unfoldable pub parse_der_signature : Bytes → Result DerError (Bytes × Bytes)
unfolding parse_sequence
parse_der_signature der = if ltb (length der) 8 then err short else parse_sequence der
