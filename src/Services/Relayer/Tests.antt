-- ===== src/Services/Relayer/Tests.antt =====
-- Runs of the relayer of src/services/x402_relayer_aws_kms.rs with a toy hash and a key service that
-- always signs the same.
use jecp_server.Prelude.{
  ◌<◌, ◌^◌, ◌≡◌, refl, true, none, some, [], ◌∷◌, ◌++◌, arith, length, take, drop, text_eq, codes,
  ok, ◌==◌, if◌then◌else◌, ◌⊎◌,
}
use jecp_server.Services.Reconciler.{
  parse_hex_u64, parse_hex_u128, from_str_radix_16, hex_digits, hex_digit, strip_0x,
}
use jecp_server.Services.Relayer.BigEndian.{
  Bytes, of_be, shift_bytes, zeros, to_be, strip_leading_zeros,
}
use jecp_server.Services.Relayer.Signature.{
  secp256k1_n, normalize_s, is_high_s, exceeds, subtract, borrow_byte, parse_der_signature,
}
use jecp_server.Services.Relayer.Signature.LowS.{IsLow, normalize_s-IsLow}
use jecp_server.Services.Relayer.Signature.Der.{der_signature, parse_der_signature-der_signature}
use jecp_server.Services.Relayer.Transaction.{
  RegisterAuthorization, Eip1559Tx, body_of, bytes_to_rlp, uint_to_rlp, is_single, signature_items,
  encode_register_calldata, register_selector, u16_word, u256_word_from_u64,
}
use jecp_server.Services.Relayer.Transaction.Rlp.{IsWords}
use jecp_server.Services.Relayer.Transaction.Calldata.{IsSized}
use jecp_server.Services.Relayer.RlpHeaders.{rlp_header, encode_header}
use jecp_server.Services.Relayer.{
  Signer, Node, register_tx, send_register_tx, get_nonce, get_gas_price, estimate_gas, max_fee,
  with_buffer,
}
use jecp_server.Services.Relayer.Sent.{IsDerSigner, IsSubmitted, send_register_tx-IsSubmitted}
use jecp_server.Services.Relayer.Registered.{register_tx-injective}
use jecp_server.Services.Relayer.PublicKey.{
  Holds, derive_address, derive_address-Holds, extract_uncompressed_pubkey, bit_string, byte_is,
  der_len_skip, fold_length, key_of, or_invalid_spki, check_expected,
}

abbrev zeros_16 : Bytes
zeros_16 = 0 ∷ 0 ∷ 0 ∷ 0 ∷ 0 ∷ 0 ∷ 0 ∷ 0 ∷ 0 ∷ 0 ∷ 0 ∷ 0 ∷ 0 ∷ 0 ∷ 0 ∷ 0 ∷ []

abbrev zeros_32 : Bytes
zeros_32 = zeros_16 ++ zeros_16

abbrev first_r : Bytes
first_r = zeros_16 ++ (0 ∷ 0 ∷ 0 ∷ 0 ∷ 0 ∷ 0 ∷ 0 ∷ 0 ∷ 0 ∷ 0 ∷ 0 ∷ 0 ∷ 0 ∷ 0 ∷ 0x81 ∷ 0x02 ∷ [])

-- Five less than the order.
abbrev high_s : Bytes
high_s =
    0xFF ∷ 0xFF ∷ 0xFF ∷ 0xFF ∷ 0xFF ∷ 0xFF ∷ 0xFF ∷ 0xFF ∷ 0xFF ∷ 0xFF ∷ 0xFF ∷ 0xFF ∷ 0xFF ∷ 0xFF
    ∷ 0xFF ∷ 0xFE ∷ 0xBA ∷ 0xAE ∷ 0xDC ∷ 0xE6 ∷ 0xAF ∷ 0x48 ∷ 0xA0 ∷ 0x3B ∷ 0xBF ∷ 0xD2 ∷ 0x5E
    ∷ 0x8C ∷ 0xD0 ∷ 0x36 ∷ 0x41 ∷ 0x3C ∷ []

high_s_below : of_be high_s < of_be secp256k1_n
unfolding of_be shift_bytes
high_s_below = omega arith

becomes_five :
    (normalize_s high_s).0
    ≡ zeros_16 ++ (0 ∷ 0 ∷ 0 ∷ 0 ∷ 0 ∷ 0 ∷ 0 ∷ 0 ∷ 0 ∷ 0 ∷ 0 ∷ 0 ∷ 0 ∷ 0 ∷ 0 ∷ 5 ∷ [])
unfolding normalize_s is_high_s exceeds subtract borrow_byte
becomes_five = refl

normalize_s-IsLow_example : IsLow high_s (normalize_s high_s)
normalize_s-IsLow_example = normalize_s-IsLow high_s (omega arith) refl high_s_below

-- Two bytes follow the sequence.
parse_der_signature-der_signature_example :
    parse_der_signature (der_signature first_r high_s ++ 1 ∷ 2 ∷ []) ≡ ok (first_r, high_s)
parse_der_signature-der_signature_example =
    parse_der_signature-der_signature first_r high_s (1 ∷ 2 ∷ []) refl refl

abbrev toy_keccak : Bytes → Bytes
toy_keccak bs = take 32 (bs ++ zeros_32)

abbrev signer : Signer
signer = record {
  header = rlp_header;
  keccak256 = toy_keccak;
  signature_text = codes "register";
  from_slice = λ _. true;
  recover_from_prehash = λ digest rs v. if v == 1 then some (4 ∷ zeros_32 ++ zeros_32) else none;
  hex_decode = λ _. some zeros_32;
  kms_sign_digest = λ _. ok (some (der_signature first_r high_s));
  address = zeros_16 ++ 0 ∷ 0 ∷ 0 ∷ 0 ∷ [];
  chain_id = 8453;
}

abbrev node : Node
node = record {
  transaction_count = ok (some (codes "0x7"));
  gas_price = ok (some (codes "0x64"));
  gas_estimate = λ _ _. ok (some (codes "0x5208"));
  send_raw_transaction = λ _. ok (some (codes "0x00"));
}

abbrev auth : RegisterAuthorization
auth = record {
  capability_id = zeros_32;
  provider = zeros_16 ++ 0 ∷ 0 ∷ 0 ∷ 9 ∷ [];
  provider_bps = 8500;
  hub_bps = 1000;
  reserve_bps = 500;
  nonce = zeros_32;
  deadline = 0;
}

abbrev provider_sig : Bytes
provider_sig = zeros_32 ++ (zeros_32 ++ 27 ∷ [])

abbrev splitter : Bytes
splitter = zeros_16 ++ 1 ∷ 2 ∷ 3 ∷ 4 ∷ []

signer-IsDerSigner : IsDerSigner signer
signer-IsDerSigner = record {
  signs = λ (digest der : Bytes) e. (first_r, high_s, (cc), refl, refl, omega arith, high_s_below);
}

send_register_tx-IsSubmitted_example :
    IsSubmitted signer splitter auth provider_sig
      (send_register_tx signer node splitter auth provider_sig).1
send_register_tx-IsSubmitted_example =
    send_register_tx-IsSubmitted signer signer-IsDerSigner node splitter auth provider_sig

-- A point at infinity it is not, but long enough.
abbrev spki : Bytes
spki = 0x30 ∷ 72 ∷ 0x30 ∷ 2 ∷ 5 ∷ 0 ∷ 0x03 ∷ 66 ∷ 0x00 ∷ 0x04 ∷ (zeros_32 ++ zeros_32)

derived : derive_address toy_keccak (ok (some spki)) (some signer.address) true ≡ ok signer.address
unfolding derive_address extract_uncompressed_pubkey bit_string byte_is der_len_skip fold_length
    key_of or_invalid_spki check_expected text_eq
derived = refl

derive_address-Holds_example :
    ((xy : Bytes) × Holds spki xy × (signer.address ≡ drop 12 (toy_keccak xy)))
    × ((some signer.address ≡ none) ⊎ (some signer.address ≡ some signer.address))
derive_address-Holds_example =
    derive_address-Holds toy_keccak spki (some signer.address) true signer.address derived

auth-IsSized : IsSized auth provider_sig
auth-IsSized = record {
  id_32 = refl;
  provider_20 = refl;
  provider_bps_u16 = omega arith;
  hub_bps_u16 = omega arith;
  reserve_bps_u16 = omega arith;
  nonce_32 = refl;
  deadline_u64 = omega arith;
  sig_65 = refl;
}

abbrev tx : Eip1559Tx
tx = record {
  chain_id = 8453;
  nonce = 7;
  max_priority_fee_per_gas = 2_000_000_000;
  max_fee_per_gas = 2_000_000_200;
  gas_limit = 25200;
  to = splitter;
  value = 0;
  calldata = encode_register_calldata toy_keccak (codes "register") auth provider_sig;
}

tx_of : register_tx signer node splitter auth provider_sig ≡ ok tx
unfolding register_tx get_nonce get_gas_price estimate_gas max_fee with_buffer parse_hex_u64
    parse_hex_u128 from_str_radix_16 hex_digits hex_digit strip_0x
tx_of = refl

tx-IsWords : IsWords tx
unfolding encode_register_calldata register_selector u16_word u256_word_from_u64 zeros to_be
tx-IsWords = record {
  chain_id_u64 = omega arith;
  nonce_u64 = omega arith;
  priority_u128 = omega arith;
  fee_u128 = omega arith;
  gas_u64 = omega arith;
  to_usize = omega arith;
  value_u256 = omega arith;
  calldata_usize = omega arith;
}

body_fits : length (body_of rlp_header tx none) < 2 ^ 64
unfolding body_of bytes_to_rlp uint_to_rlp is_single signature_items strip_leading_zeros
    encode_header encode_register_calldata register_selector u16_word u256_word_from_u64 zeros to_be
body_fits = omega arith

register_tx-injective_example :
    (splitter ≡ splitter) × (auth ≡ auth) × (provider_sig ≡ provider_sig)
register_tx-injective_example =
    register_tx-injective signer node node splitter splitter auth auth provider_sig provider_sig tx
      tx auth-IsSized auth-IsSized tx_of tx_of tx-IsWords tx-IsWords body_fits body_fits refl
