-- ===== src/Services/Relayer/PublicKey.antt =====
-- src/services/x402_relayer_aws_kms.rs: the public key of the key service, read from a buffer by
-- positions, and the check of the relayer's address at start-up.
use jecp_server.Prelude.{
  ℕ, ◌+◌, ◌*◌, ◌%◌, ◌≡◌, refl, ap, sym, ◌∙◌, Bool, false, not, ◌&&◌, ◌||◌, Option, none, some, [],
  ◌∷◌, ◌++◌, ltb, ◌==◌, if◌then◌else◌, length, take, drop, Result, ok, err, guard, ◌>>=◌, ◌>>◌,
  text_eq, arith, take-append-drop, >>=-eq-ok, guard-eq-ok, ok-injective, text_eq→eq, ok_or, subst,
  inl, inr, ◌⊎◌,
}
use jecp_server.Services.Relayer.{address_from_uncompressed_pubkey}
use jecp_server.Services.Relayer.BigEndian.{Bytes}

-- What the message of `InvalidSpki` says.
pub data SpkiError : Type 0 where
  length_truncated unsupported_length : SpkiError
  missing_outer outer_runs_past missing_alg alg_overruns : SpkiError
  missing_bit_string bit_string_runs_past bit_string_size unused_bits not_uncompressed : SpkiError

-- The byte at a position is the given one; past the end it is not.
unfoldable pub byte_is : Bytes → ℕ → ℕ → Bool
byte_is buf p b = elim (drop p buf) [ [] ↦ false | c ∷ cs ↦ c == b ]

-- `v = (v << 8) | b`; of at most four bytes nothing is lost.
unfoldable pub fold_length : ℕ → Bytes → ℕ
fold_length v [] = v
fold_length v (b ∷ bs) = fold_length (v * 256 + b) bs

-- The payload's length, and the position behind it.
unfoldable pub der_len_skip : Bytes → ℕ → Result SpkiError (ℕ × ℕ)
unfolding fold_length
der_len_skip buf p = elim (drop p buf) [
  | [] ↦ err length_truncated
  | b ∷ rest ↦
      if ltb b 0x80
      then ok (b, p + 1)
      else (let nbytes = b % 128 in
          if nbytes == 0 || ltb 4 nbytes
          then err unsupported_length
          else if ltb (length rest) nbytes
          then err length_truncated
          else ok (fold_length 0 (take nbytes rest), p + 1 + nbytes))
]

-- The content of the BIT STRING.
unfoldable pub key_of : Bytes → Result SpkiError Bytes
key_of (unused ∷ form ∷ xy) = do
  guard (length (unused ∷ form ∷ xy) == 66) bit_string_size
  guard (unused == 0x00) unused_bits
  guard (form == 0x04) not_uncompressed
  ok xy
key_of (unused ∷ []) = err bit_string_size
key_of [] = err bit_string_size

-- Where the BIT STRING's content lies: its position and length.
unfoldable pub bit_string : Bytes → Result SpkiError (ℕ × ℕ)
unfolding byte_is der_len_skip
bit_string spki = do
  guard (not (ltb (length spki) 2) && byte_is spki 0 0x30) missing_outer
  outer ← der_len_skip spki 1
  let outer_end = outer.1 + outer.0
  guard (not (ltb (length spki) outer_end)) outer_runs_past
  guard (ltb outer.1 outer_end && byte_is spki outer.1 0x30) missing_alg
  alg ← der_len_skip spki (outer.1 + 1)
  let p = alg.1 + alg.0
  guard (not (ltb outer_end p)) alg_overruns
  guard (ltb p outer_end && byte_is spki p 0x03) missing_bit_string
  bits ← der_len_skip spki (p + 1)
  let end = bits.1 + bits.0
  guard (not (ltb (length spki) end || ltb outer_end end)) bit_string_runs_past
  ok (bits.1, bits.0)

unfoldable pub extract_uncompressed_pubkey : Bytes → Result SpkiError Bytes
unfolding bit_string key_of
extract_uncompressed_pubkey spki = do
  body ← bit_string spki
  key_of (take body.1 (drop body.0 spki))

pub data AwsKmsRelayerError : Type 0 where
  kms_get_public_key : AwsKmsRelayerError
  kms_no_public_key : AwsKmsRelayerError
  invalid_spki : SpkiError → AwsKmsRelayerError
  address_mismatch : Bytes → Bytes → AwsKmsRelayerError
  http_client : AwsKmsRelayerError

unfoldable pub or_invalid_spki : {A : Type 0} → Result SpkiError A → Result AwsKmsRelayerError A
or_invalid_spki (ok a) = ok a
or_invalid_spki (err e) = err (invalid_spki e)

unfoldable pub check_expected : Bytes → Option Bytes → Result AwsKmsRelayerError (Unit {0})
check_expected derived none = ok tt
check_expected derived (some expected) =
    guard (text_eq derived expected) (address_mismatch derived expected)

-- `new`: the address that the signer signs for.
module _ (keccak256 : Bytes → Bytes) where
  unfoldable pub derive_address :
      Result AwsKmsRelayerError (Option Bytes)
      → Option Bytes
      → Bool
      → Result AwsKmsRelayerError Bytes
  unfolding or_invalid_spki extract_uncompressed_pubkey address_from_uncompressed_pubkey
      check_expected
  derive_address public_key expected_address has_client = do
    answer ← public_key
    spki ← ok_or answer kms_no_public_key
    xy ← or_invalid_spki (extract_uncompressed_pubkey spki)
    let derived = address_from_uncompressed_pubkey keccak256 xy
    check_expected derived expected_address
    guard has_client http_client
    ok derived

-- The buffer has the 64 bytes in it, behind the bytes that say that a point is written out in full.
abbrev pub Holds : Bytes → Bytes → Type 0
Holds spki xy =
    (before : Bytes) × (after : Bytes) × (spki ≡ before ++ (0x00 ∷ 0x04 ∷ (xy ++ after)))
    × (length xy ≡ 64)

key_of-ok : (body xy : Bytes) → key_of body ≡ ok xy → (body ≡ 0x00 ∷ 0x04 ∷ xy) × (length xy ≡ 64)
unfolding key_of
key_of-ok (unused ∷ form ∷ ys) xy h = ground arith
key_of-ok (unused ∷ []) xy h = absurd (cc)
key_of-ok [] xy h = absurd (cc)

pub extract_uncompressed_pubkey-Holds :
    (spki xy : Bytes) → extract_uncompressed_pubkey spki ≡ ok xy → Holds spki xy
unfolding extract_uncompressed_pubkey
extract_uncompressed_pubkey-Holds spki xy h =
    let (at, _, found) = >>=-eq-ok (bit_string spki) _ h in
    let (body, len) = key_of-ok (take at.1 (drop at.0 spki)) xy found in
    (
      take at.0 spki,
      drop at.1 (drop at.0 spki),
      sym (take-append-drop at.0 spki)
          ∙ ap (λ (t : Bytes). take at.0 spki ++ t)
              (sym (take-append-drop at.1 (drop at.0 spki))
                ∙ ap (λ (t : Bytes). t ++ drop at.1 (drop at.0 spki)) body),
      len,
    )

or_invalid_spki-ok : (r : Result SpkiError Bytes) (a : Bytes) → or_invalid_spki r ≡ ok a → r ≡ ok a
unfolding or_invalid_spki
or_invalid_spki-ok (ok b) a e = cc
or_invalid_spki-ok (err b) a e = cc

check_expected-ok :
    (derived : Bytes) (expected_address : Option Bytes) {u : Unit {0}}
    → check_expected derived expected_address ≡ ok u
    → (expected_address ≡ none) ⊎ (expected_address ≡ some derived)
unfolding check_expected
check_expected-ok derived none checked = inl refl
check_expected-ok derived (some configured) checked = inr (
    ap (λ (t : Bytes). some t)
      (sym (text_eq→eq derived configured (guard-eq-ok (text_eq derived configured) _ checked))))

-- A signer that starts up signs for the address of a key of 64 bytes that the key service's answer
-- holds, and no other address was configured.
pub derive_address-Holds :
    (keccak256 : Bytes → Bytes) (spki : Bytes) (expected_address : Option Bytes) (has_client : Bool)
    (address : Bytes)
    → derive_address keccak256 (ok (some spki)) expected_address has_client ≡ ok address
    → ((xy : Bytes) × Holds spki xy × (address ≡ drop 12 (keccak256 xy)))
      × ((expected_address ≡ none) ⊎ (expected_address ≡ some address))
unfolding derive_address address_from_uncompressed_pubkey
derive_address-Holds keccak256 spki expected_address has_client address h =
    let (xy, h0, h1) = >>=-eq-ok (or_invalid_spki (extract_uncompressed_pubkey spki)) _ h in
    let (_, h2, h3) = >>=-eq-ok (check_expected (drop 12 (keccak256 xy)) expected_address) _ h1 in
    let (_, _, h4) = >>=-eq-ok (guard has_client http_client) _ h3 in
    let same = ok-injective h4 in
    (
      (
        xy,
        extract_uncompressed_pubkey-Holds spki xy
            (or_invalid_spki-ok (extract_uncompressed_pubkey spki) xy h0),
        sym same,
      ),
      subst (λ (a : Bytes). (expected_address ≡ none) ⊎ (expected_address ≡ some a)) same
          (check_expected-ok (drop 12 (keccak256 xy)) expected_address h2),
    )
