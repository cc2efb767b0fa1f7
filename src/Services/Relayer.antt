-- ===== src/Services/Relayer.antt =====
-- src/services/x402_relayer_aws_kms.rs and src/services/x402_relayer.rs: the relayer that registers
-- capabilities on chain, with its key in a key service. Parameters are Keccak, the recovery of a key
-- from a signature, the hex decoder, the key service, and the node's replies, as the text that a
-- reply holds, if it is one. The lock makes a call one step.
pub mod BigEndian
pub mod Signature
pub mod Transaction
pub mod PublicKey
pub mod Sent
pub mod Registered
pub mod RlpHeaders
mod Tests
use Prim.Native.String.{String}
use jecp_server.Prelude.{
  ℕ, ◌+◌, ◌-◌, ◌*◌, ◌/◌, ◌^◌, min, Bool, true, false, not, ◌&&◌, Option, none, some, List, [], ◌∷◌,
  ◌++◌, Text, text_eq, ◌==◌, if◌then◌else◌, length, take, drop, Result, ok, err, guard, ok_or,
  ◌>>=◌, ◌>>◌,
}
use jecp_server.Services.Reconciler.{strip_0x, parse_hex_u64, parse_hex_u128}
use jecp_server.Services.Relayer.BigEndian.{Bytes}
use jecp_server.Services.Relayer.Signature.{normalize_s, parse_der_signature}
use jecp_server.Services.Relayer.Transaction.{
  RlpHeader, Eip1559Tx, RegisterAuthorization, encode_for_signing, encode_signed,
  encode_register_calldata,
}

-- The message of `Rpc` says what failed.
pub data RelayerError : Type 0 where
  not_implemented : RelayerError
  invalid_provider_sig : RelayerError
  rpc : String → RelayerError
  timeout : RelayerError
  revert : RelayerError

pub data RelayerSignerKind : Type 0 where
  stub : RelayerSignerKind
  aws_kms : RelayerSignerKind

module _ (trim : Text → Text) where
  unfoldable pub select_relayer_signer_kind : Option Text → RelayerSignerKind
  select_relayer_signer_kind none = stub
  select_relayer_signer_kind (some id) = if text_eq (trim id) [] then stub else aws_kms

  module _ (hex_decode : Text → Option Bytes) where
    unfoldable pub parse_provider_sig : Text → Result RelayerError Bytes
    parse_provider_sig hex_str = do
      bytes ← ok_or (hex_decode (strip_0x (trim hex_str))) invalid_provider_sig
      guard (length bytes == 65) invalid_provider_sig
      ok bytes

abbrev pub Reply : Type 0
Reply = Result RelayerError (Option Text)

-- `get_nonce`, `get_gas_price` and `estimate_gas` with the answer to their request.
unfoldable pub get_nonce : Reply → Result RelayerError ℕ
get_nonce reply = do
  answer ← reply
  s ← ok_or answer (rpc "nonce: not string")
  ok_or (parse_hex_u64 s) (rpc "nonce parse")

unfoldable pub get_gas_price : Reply → Result RelayerError ℕ
get_gas_price reply = do
  answer ← reply
  s ← ok_or answer (rpc "gas: not string")
  ok_or (parse_hex_u128 s) (rpc "gas parse")

unfoldable pub estimate_gas : Reply → Result RelayerError ℕ
estimate_gas reply = do
  answer ← reply
  s ← ok_or answer (rpc "gas est: not string")
  ok_or (parse_hex_u64 s) (rpc "gas est parse")

-- Arithmetic that stays at the greatest word.
abbrev pub saturated : ℕ → ℕ → ℕ
saturated width n = min n (2 ^ width - 1)

abbrev pub priority_fee : ℕ
priority_fee = 2_000_000_000

unfoldable pub max_fee : ℕ → ℕ
max_fee base_gas_price = saturated 128 (saturated 128 (base_gas_price * 2) + priority_fee)

unfoldable pub with_buffer : ℕ → ℕ
with_buffer est = saturated 64 (est + est / 5)

unfoldable pub address_from_uncompressed_pubkey : (Bytes → Bytes) → Bytes → Bytes
address_from_uncompressed_pubkey keccak256 xy = drop 12 (keccak256 xy)

unfoldable pub starts_with_4 : Bytes → Bool
starts_with_4 [] = false
starts_with_4 (b ∷ bs) = b == 0x04

-- What the signer is made of, and what it is given from outside.
pub record Signer : Type 0 where
  pub header : RlpHeader
  pub keccak256 : Bytes → Bytes
  pub signature_text : Bytes
  pub from_slice : Bytes → Bool
  pub recover_from_prehash : Bytes → Bytes → ℕ → Option Bytes
  pub hex_decode : Text → Option Bytes
  pub kms_sign_digest : Bytes → Result (Unit {0}) (Option Bytes)
  pub address : Bytes
  pub chain_id : ℕ

pub record Node : Type 0 where
  pub transaction_count : Reply
  pub gas_price : Reply
  pub gas_estimate : Bytes → Bytes → Reply
  pub send_raw_transaction : Bytes → Reply

module _ (signer : Signer) where
  -- The key that is recovered with `v` has the expected address.
  unfoldable pub recovers : Bytes → Bytes → Bytes → ℕ → Bytes → Bool
  unfolding address_from_uncompressed_pubkey starts_with_4
  recovers msg_hash r s v expected = elim (signer.recover_from_prehash msg_hash (r ++ s) v) [
    | none ↦ false
    | some encoded ↦
        (length encoded == 65 && starts_with_4 encoded)
        && text_eq (address_from_uncompressed_pubkey signer.keccak256 (drop 1 encoded)) expected
  ]

  unfoldable pub recover_y_parity : Bytes → Bytes → Bytes → Bytes → Result RelayerError ℕ
  unfolding recovers
  recover_y_parity msg_hash r s expected = do
    guard (signer.from_slice (r ++ s)) (rpc "k256 sig decode")
    (if recovers msg_hash r s 0 expected
        then ok 0
        else if recovers msg_hash r s 1 expected
        then ok 1
        else err (rpc "y-parity recovery failed"))

  unfoldable pub or_rpc : {E A : Type 0} → String → Result E A → Result RelayerError A
  or_rpc message (ok a) = ok a
  or_rpc message (err e) = err (rpc message)

  unfoldable pub kms_sign : Bytes → Result RelayerError (Bytes × Bytes)
  unfolding or_rpc
  kms_sign digest = do
    answer ← or_rpc "kms sign" (signer.kms_sign_digest digest)
    der ← ok_or answer (rpc "kms sign: no signature")
    rs ← or_rpc "kms der" (parse_der_signature der)
    ok (rs.0, (normalize_s rs.1).0)

  unfoldable pub send_raw : Node → Bytes → Result RelayerError Bytes
  send_raw node raw = do
    answer ← node.send_raw_transaction raw
    s ← ok_or answer (rpc "send: not string")
    bytes ← ok_or (signer.hex_decode (strip_0x s)) (rpc "hash hex")
    guard (length bytes == 32) (rpc "hash bad len")
    ok bytes

  unfoldable pub signing_digest : Eip1559Tx → Bytes
  signing_digest tx = signer.keccak256 (encode_for_signing signer.header tx)

  unfoldable pub register_tx :
      Node → Bytes → RegisterAuthorization → Bytes → Result RelayerError Eip1559Tx
  unfolding get_nonce get_gas_price estimate_gas max_fee with_buffer
  register_tx node splitter_address auth provider_sig = do
    let calldata = encode_register_calldata signer.keccak256 signer.signature_text auth provider_sig
    nonce ← get_nonce node.transaction_count
    base_gas_price ← get_gas_price node.gas_price
    est ← estimate_gas (node.gas_estimate splitter_address calldata)
    ok (record {
      chain_id = signer.chain_id;
      nonce = nonce;
      max_priority_fee_per_gas = priority_fee;
      max_fee_per_gas = max_fee base_gas_price;
      gas_limit = with_buffer est;
      to = splitter_address;
      value = 0;
      calldata = calldata;
    })

  -- The transaction as it goes out.
  unfoldable pub signed_tx : Eip1559Tx → Result RelayerError Bytes
  unfolding signing_digest kms_sign recover_y_parity
  signed_tx tx = do
    let digest = signing_digest tx
    rs ← kms_sign digest
    y_parity ← recover_y_parity digest rs.0 rs.1 signer.address
    ok (encode_signed signer.header tx y_parity rs.0 rs.1)

  unfoldable pub submit : Node → Result RelayerError Bytes → Result RelayerError Bytes × List Bytes
  unfolding send_raw
  submit node (ok raw) = (send_raw node raw, raw ∷ [])
  submit node (err e) = (err e, [])

  -- The answer, and what was submitted to the node.
  unfoldable pub send_register_tx :
      Node → Bytes → RegisterAuthorization → Bytes → Result RelayerError Bytes × List Bytes
  unfolding submit register_tx signed_tx
  send_register_tx node splitter_address auth provider_sig =
      submit node (register_tx node splitter_address auth provider_sig >>= signed_tx)
