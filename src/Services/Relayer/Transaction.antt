-- ===== src/Services/Relayer/Transaction.antt =====
-- src/services/x402_relayer_aws_kms.rs: the calldata of `register()`, and the RLP form of the transaction
-- around it. The header of alloy_rlp is a parameter with its documented behaviour, and so is Keccak.
-- Machine words are numbers; an address, a hash and a signature are the lists of their bytes.
pub mod Rlp
pub mod Calldata
use jecp_server.Prelude.{
  ℕ, ◌+◌, ◌-◌, ◌*◌, ◌%◌, ◌^◌, ◌≤◌, ◌<◌, ◌≡◌, Bool, true, false, ◌&&◌, Option, none, some, List, [],
  ◌∷◌, ◌++◌, ltb, ◌==◌, if◌then◌else◌, length, take, drop,
}
use jecp_server.Services.Relayer.BigEndian.{Bytes, to_be, strip_leading_zeros, zeros}

-- `Header::encode`: a reader takes back whether it heads a list, and how long its payload is; and a
-- byte below 0x80 heads nothing.
pub record RlpHeader : Type 0 where
  pub encode : Bool → ℕ → Bytes
  pub read : Bytes → Option ((Bool × ℕ) × Bytes)
  pub read-encode :
      (list : Bool) (payload_length : ℕ) (rest : Bytes)
      → payload_length < 2 ^ 64
      → read (encode list payload_length ++ rest) ≡ some ((list, payload_length), rest)
  pub read_byte : (b : ℕ) (rest : Bytes) → b < 0x80 → read (b ∷ rest) ≡ none

pub record Eip1559Tx : Type 0 where
  pub chain_id : ℕ
  pub nonce : ℕ
  pub max_priority_fee_per_gas : ℕ
  pub max_fee_per_gas : ℕ
  pub gas_limit : ℕ
  pub to : Bytes
  pub value : ℕ
  pub calldata : Bytes

unfoldable pub is_single : Bytes → Bool
is_single [] = false
is_single (b ∷ []) = ltb b 0x80
is_single (b ∷ c ∷ bs) = false

module _ (header : RlpHeader) where
  unfoldable pub bytes_to_rlp : Bytes → Bytes
  unfolding is_single
  bytes_to_rlp buf = if is_single buf then buf else header.encode false (length buf) ++ buf

  -- `u64_to_rlp`, `u128_to_rlp` and `u256_to_rlp`, by the number of bytes.
  unfoldable pub uint_to_rlp : ℕ → ℕ → Bytes
  unfolding bytes_to_rlp strip_leading_zeros to_be
  uint_to_rlp width v = bytes_to_rlp (strip_leading_zeros (to_be width v))

  unfoldable pub int32_to_rlp : Bytes → Bytes
  unfolding bytes_to_rlp strip_leading_zeros
  int32_to_rlp v = bytes_to_rlp (strip_leading_zeros v)

  unfoldable pub signature_items : Option (ℕ × (Bytes × Bytes)) → Bytes
  unfolding uint_to_rlp int32_to_rlp
  signature_items none = []
  signature_items (some (y, (r, s))) = uint_to_rlp 8 y ++ (int32_to_rlp r ++ int32_to_rlp s)

  unfoldable pub body_of : Eip1559Tx → Option (ℕ × (Bytes × Bytes)) → Bytes
  unfolding uint_to_rlp bytes_to_rlp signature_items
  body_of tx sig =
      uint_to_rlp 8 tx.chain_id
      ++ (uint_to_rlp 8 tx.nonce
          ++ (uint_to_rlp 16 tx.max_priority_fee_per_gas
              ++ (uint_to_rlp 16 tx.max_fee_per_gas
                  ++ (uint_to_rlp 8 tx.gas_limit
                      ++ (bytes_to_rlp tx.to
                          ++ (uint_to_rlp 32 tx.value
                              ++ (bytes_to_rlp tx.calldata ++ (0xc0 ∷ signature_items sig))))))))

  unfoldable pub encode_payload : Eip1559Tx → Option (ℕ × (Bytes × Bytes)) → Bytes
  unfolding body_of
  encode_payload tx sig = let body = body_of tx sig in header.encode true (length body) ++ body

  unfoldable pub encode_for_signing : Eip1559Tx → Bytes
  unfolding encode_payload
  encode_for_signing tx = 0x02 ∷ encode_payload tx none

  unfoldable pub encode_signed : Eip1559Tx → ℕ → Bytes → Bytes → Bytes
  unfolding encode_payload
  encode_signed tx y_parity r s = 0x02 ∷ encode_payload tx (some (y_parity, (r, s)))

pub record RegisterAuthorization : Type 0 where
  pub capability_id : Bytes
  pub provider : Bytes
  pub provider_bps : ℕ
  pub hub_bps : ℕ
  pub reserve_bps : ℕ
  pub nonce : Bytes
  pub deadline : ℕ

unfoldable pub u16_word : ℕ → Bytes
unfolding zeros to_be
u16_word v = zeros 30 ++ to_be 2 v

unfoldable pub u256_word_from_u64 : ℕ → Bytes
unfolding zeros to_be
u256_word_from_u64 v = zeros 24 ++ to_be 8 v

module _ (keccak256 : Bytes → Bytes) (signature_text : Bytes) where
  unfoldable pub register_selector : Bytes
  register_selector = take 4 (keccak256 signature_text)

  unfoldable pub encode_register_calldata : RegisterAuthorization → Bytes → Bytes
  unfolding register_selector u16_word u256_word_from_u64 zeros
  encode_register_calldata auth provider_sig =
      register_selector
      ++ (auth.capability_id
          ++ ((zeros 12 ++ auth.provider)
              ++ (u16_word auth.provider_bps
                  ++ (u16_word auth.hub_bps
                      ++ (u16_word auth.reserve_bps
                          ++ (auth.nonce
                              ++ (u256_word_from_u64 auth.deadline
                                  ++ (u256_word_from_u64 (8 * 32)
                                      ++ (u256_word_from_u64 (length provider_sig)
                                          ++ (provider_sig
                                              ++ zeros
                                                  ((32 - length provider_sig % 32) % 32)))))))))))
