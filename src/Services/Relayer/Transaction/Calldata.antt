-- ===== src/Services/Relayer/Transaction/Calldata.antt =====
-- src/services/x402_relayer_aws_kms.rs: the calldata of `register()` has the layout of the ABI, and
-- determines the authorization and the provider's signature.
use jecp_server.Prelude.{
  ℕ, ◌*◌, ◌^◌, ◌<◌, ◌≡◌, refl, ap, sym, ◌∙◌, ◌++◌, arith, length, length-append,
}
use jecp_server.Services.Relayer.BigEndian.{
  Bytes, of_be, to_be, words, zeros, of_be-to_be, length-to_be, length-zeros,
}
use jecp_server.Services.Relayer.Transaction.{
  RegisterAuthorization, u16_word, u256_word_from_u64, register_selector, encode_register_calldata,
}
use jecp_server.Services.Relayer.Transaction.Rlp.{append-cancel}

-- The sizes that the types of the fields give.
pub record IsSized (auth : RegisterAuthorization) (provider_sig : Bytes) : Type 0 where
  pub id_32 : length auth.capability_id ≡ 32
  pub provider_20 : length auth.provider ≡ 20
  pub provider_bps_u16 : auth.provider_bps < 2 ^ 16
  pub hub_bps_u16 : auth.hub_bps < 2 ^ 16
  pub reserve_bps_u16 : auth.reserve_bps < 2 ^ 16
  pub nonce_32 : length auth.nonce ≡ 32
  pub deadline_u64 : auth.deadline < 2 ^ 64
  pub sig_65 : length provider_sig ≡ 65

words_2 : words 2 ≡ 2 ^ 16
unfolding words
words_2 = refl

words_8 : words 8 ≡ 2 ^ 64
unfolding words
words_8 = refl

length-u16_word : (v : ℕ) → length (u16_word v) ≡ 32
unfolding u16_word
length-u16_word v =
    length-append (zeros 30) (to_be 2 v) ∙ omega (arith, length-zeros 30, length-to_be 2 v)

length-u256_word_from_u64 : (v : ℕ) → length (u256_word_from_u64 v) ≡ 32
unfolding u256_word_from_u64
length-u256_word_from_u64 v =
    length-append (zeros 24) (to_be 8 v) ∙ omega (arith, length-zeros 24, length-to_be 8 v)

padded-cancel :
    (k n v w : ℕ) → v < words n → w < words n → zeros k ++ to_be n v ≡ zeros k ++ to_be n w → v ≡ w
padded-cancel k n v w hv hw e =
    let (_, same) = append-cancel (zeros k) (zeros k) (to_be n v) (to_be n w) refl e in
    sym (of_be-to_be n v hv) ∙ (ap of_be same ∙ of_be-to_be n w hw)

u16_word-cancel :
    (v w : ℕ) (rest rest' : Bytes)
    → v < 2 ^ 16
    → w < 2 ^ 16
    → u16_word v ++ rest ≡ u16_word w ++ rest'
    → (v ≡ w) × (rest ≡ rest')
u16_word-cancel v w rest rest' hv hw e =
    let (same, rests) =
      append-cancel (u16_word v) (u16_word w) rest rest'
        (omega (arith, length-u16_word v, length-u16_word w)) e in
    (
      padded-cancel 30 2 v w (omega (arith, words_2)) (omega (arith, words_2))
          (unfold u16_word in same),
      rests,
    )

u256_word_from_u64-cancel :
    (v w : ℕ) (rest rest' : Bytes)
    → v < 2 ^ 64
    → w < 2 ^ 64
    → u256_word_from_u64 v ++ rest ≡ u256_word_from_u64 w ++ rest'
    → (v ≡ w) × (rest ≡ rest')
u256_word_from_u64-cancel v w rest rest' hv hw e =
    let (same, rests) =
      append-cancel (u256_word_from_u64 v) (u256_word_from_u64 w) rest rest'
        (omega (arith, length-u256_word_from_u64 v, length-u256_word_from_u64 w)) e in
    (
      padded-cancel 24 8 v w (omega (arith, words_8)) (omega (arith, words_8))
          (unfold u256_word_from_u64 in same),
      rests,
    )

module _ (keccak256 : Bytes → Bytes) (signature_text : Bytes) where
  -- Two registrations with the same calldata are the same, by one signature.
  pub encode_register_calldata-injective :
      (a a' : RegisterAuthorization) (sig sig' : Bytes)
      → IsSized a sig
      → IsSized a' sig'
      → encode_register_calldata keccak256 signature_text a sig
        ≡ encode_register_calldata keccak256 signature_text a' sig'
      → (a ≡ a') × (sig ≡ sig')
  unfolding encode_register_calldata
  encode_register_calldata-injective a a' sig sig' z z' e =
      let selector = register_selector keccak256 signature_text in
      let (_, r0) = append-cancel selector selector _ _ refl e in
      let (e1, r1) =
        append-cancel a.capability_id a'.capability_id _ _ (omega (arith, z.id_32, z'.id_32)) r0 in
      let (w2, r2) =
        append-cancel (zeros 12 ++ a.provider) (zeros 12 ++ a'.provider) _ _
          (omega (
            arith,
            length-append (zeros 12) a.provider,
            length-append (zeros 12) a'.provider,
            z.provider_20,
            z'.provider_20,
          ))
          r1 in
      let (_, e2) = append-cancel (zeros 12) (zeros 12) a.provider a'.provider refl w2 in
      let (e3, r3) =
        u16_word-cancel a.provider_bps a'.provider_bps _ _ z.provider_bps_u16 z'.provider_bps_u16
          r2 in
      let (e4, r4) = u16_word-cancel a.hub_bps a'.hub_bps _ _ z.hub_bps_u16 z'.hub_bps_u16 r3 in
      let (e5, r5) =
        u16_word-cancel a.reserve_bps a'.reserve_bps _ _ z.reserve_bps_u16 z'.reserve_bps_u16 r4 in
      let (e6, r6) =
        append-cancel a.nonce a'.nonce _ _ (omega (arith, z.nonce_32, z'.nonce_32)) r5 in
      let (e7, r7) =
        u256_word_from_u64-cancel a.deadline a'.deadline _ _ z.deadline_u64 z'.deadline_u64 r6 in
      let (_, r8) =
        u256_word_from_u64-cancel (8 * 32) (8 * 32) _ _ (omega arith) (omega arith) r7 in
      let (_, r9) =
        u256_word_from_u64-cancel (length sig) (length sig') _ _ (omega (arith, z.sig_65))
          (omega (arith, z'.sig_65)) r8 in
      let (e8, _) = append-cancel sig sig' _ _ (omega (arith, z.sig_65, z'.sig_65)) r9 in (cc, e8)
