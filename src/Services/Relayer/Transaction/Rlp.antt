-- ===== src/Services/Relayer/Transaction/Rlp.antt =====
-- src/services/x402_relayer_aws_kms.rs: the bytes of a transaction determine it.
use jecp_server.Prelude.{
  ℕ, ◌-◌, ◌^◌, ◌≤◌, ◌<◌, ◌≡◌, refl, ap, sym, ◌∙◌, inl, inr, ◌⊎◌, true, false, Option, none, some,
  [], ◌∷◌, ◌++◌, arith, length, ltb, ltb→lt, Bool-cases,
}
use mathlib.Core.List.{append-nil, append_assoc}
use jecp_server.Services.Relayer.BigEndian.{
  Bytes, of_be, to_be, words, strip_leading_zeros, of_be-to_be, of_be-strip_leading_zeros,
  length-to_be, cons_eq, zeros,
}
use jecp_server.Services.Relayer.Signature.Der.{
  length-strip_leading_zeros-le, zeros-strip_leading_zeros,
}
use jecp_server.Services.Relayer.Transaction.{
  RlpHeader, Eip1559Tx, is_single, bytes_to_rlp, uint_to_rlp, int32_to_rlp, signature_items,
  body_of, encode_payload, encode_for_signing, encode_signed,
}

-- Two lists of one length in front of others.
pub append-cancel :
    (xs ys rest rest' : Bytes)
    → length xs ≡ length ys
    → xs ++ rest ≡ ys ++ rest'
    → (xs ≡ ys) × (rest ≡ rest')
append-cancel [] [] rest rest' l e = (refl, e)
append-cancel (x ∷ xs) (y ∷ ys) rest rest' l e =
    let (tails, rests) = append-cancel xs ys rest rest' (omega arith) (cc) in
    (cons_eq (cc) tails, rests)
append-cancel [] (y ∷ ys) rest rest' l e = absurd (omega arith)
append-cancel (x ∷ xs) [] rest rest' l e = absurd (omega arith)

module _ (header : RlpHeader) where
  -- How one item is written.
  single_or_headed :
      (buf rest : Bytes)
      → ((b : ℕ) × (buf ≡ b ∷ []) × (b < 0x80) × (bytes_to_rlp header buf ++ rest ≡ b ∷ rest))
        ⊎ (bytes_to_rlp header buf ++ rest ≡ header.encode false (length buf) ++ (buf ++ rest))
  unfolding bytes_to_rlp is_single
  single_or_headed [] rest = inr (append_assoc (header.encode false 0) [] rest)
  single_or_headed (b ∷ []) rest = elim (Bool-cases (ltb b 0x80)) [
    | inl small ↦ inl (b, refl, ltb→lt b 0x80 small, rw small)
    | inr large ↦ inr (rw large (append_assoc (header.encode false 1) (b ∷ []) rest))
  ]
  single_or_headed (b ∷ c ∷ bs) rest =
      inr (append_assoc (header.encode false (length (b ∷ c ∷ bs))) (b ∷ c ∷ bs) rest)

  -- An item in front of others can be told from them.
  pub bytes_to_rlp-cancel :
      (x y rest rest' : Bytes)
      → length x < 2 ^ 64
      → length y < 2 ^ 64
      → bytes_to_rlp header x ++ rest ≡ bytes_to_rlp header y ++ rest'
      → (x ≡ y) × (rest ≡ rest')
  bytes_to_rlp-cancel x y rest rest' hx hy e =
      both (single_or_headed x rest) (single_or_headed y rest')
    where
      headed_read :
          (buf tail : Bytes)
          → length buf < 2 ^ 64
          → header.read (header.encode false (length buf) ++ (buf ++ tail))
            ≡ some ((false, length buf), buf ++ tail)
      headed_read buf tail h = header.read-encode false (length buf) (buf ++ tail) h

      both :
          ((b : ℕ) × (x ≡ b ∷ []) × (b < 0x80) × (bytes_to_rlp header x ++ rest ≡ b ∷ rest))
            ⊎ (bytes_to_rlp header x ++ rest ≡ header.encode false (length x) ++ (x ++ rest))
          → ((b : ℕ) × (y ≡ b ∷ []) × (b < 0x80) × (bytes_to_rlp header y ++ rest' ≡ b ∷ rest'))
            ⊎ (bytes_to_rlp header y ++ rest' ≡ header.encode false (length y) ++ (y ++ rest'))
          → (x ≡ y) × (rest ≡ rest')
      both (inl (b, ex, hb, wx)) (inl (c, ey, hc, wy)) = (cc, cc)
      both (inl (b, ex, hb, wx)) (inr wy) =
          absurd (cc (header.read_byte b rest hb, headed_read y rest' hy))
      both (inr wx) (inl (c, ey, hc, wy)) =
          absurd (cc (header.read_byte c rest' hc, headed_read x rest hx))
      both (inr wx) (inr wy) =
          let read_x = headed_read x rest hx in
          let read_y = headed_read y rest' hy in append-cancel x y rest rest' (cc) (cc)

  uint_to_rlp-cancel :
      (width v w : ℕ) (rest rest' : Bytes)
      → width ≤ 32
      → v < words width
      → w < words width
      → uint_to_rlp header width v ++ rest ≡ uint_to_rlp header width w ++ rest'
      → (v ≡ w) × (rest ≡ rest')
  unfolding uint_to_rlp
  uint_to_rlp-cancel width v w rest rest' small hv hw e =
      let (same, rests) =
        bytes_to_rlp-cancel (strip_leading_zeros (to_be width v))
          (strip_leading_zeros (to_be width w)) rest rest'
          (omega (arith, length-strip_leading_zeros-le (to_be width v), length-to_be width v))
          (omega (arith, length-strip_leading_zeros-le (to_be width w), length-to_be width w)) e in
      (sym (value v hv) ∙ (ap of_be same ∙ value w hw), rests)
    where
      value : (u : ℕ) → u < words width → of_be (strip_leading_zeros (to_be width u)) ≡ u
      value u h = of_be-strip_leading_zeros (to_be width u) ∙ of_be-to_be width u h

  strip_leading_zeros-injective :
      (r s : Bytes) → length r ≡ length s → strip_leading_zeros r ≡ strip_leading_zeros s → r ≡ s
  strip_leading_zeros-injective r s l e =
      sym (zeros-strip_leading_zeros r)
      ∙ (ap (λ (t : Bytes). zeros (length r - length t) ++ t) e
          ∙ (ap (λ (n : ℕ). zeros (n - length (strip_leading_zeros s)) ++ strip_leading_zeros s) l
              ∙ zeros-strip_leading_zeros s))

  int32_to_rlp-cancel :
      (r s rest rest' : Bytes)
      → length r ≡ 32
      → length s ≡ 32
      → int32_to_rlp header r ++ rest ≡ int32_to_rlp header s ++ rest'
      → (r ≡ s) × (rest ≡ rest')
  unfolding int32_to_rlp
  int32_to_rlp-cancel r s rest rest' hr hs e =
      let (same, rests) =
        bytes_to_rlp-cancel (strip_leading_zeros r) (strip_leading_zeros s) rest rest'
          (omega (arith, length-strip_leading_zeros-le r))
          (omega (arith, length-strip_leading_zeros-le s)) e in
      (strip_leading_zeros-injective r s (omega arith) same, rests)

-- The fields are machine words, and lengths fit one.
pub record IsWords (tx : Eip1559Tx) : Type 0 where
  pub chain_id_u64 : tx.chain_id < 2 ^ 64
  pub nonce_u64 : tx.nonce < 2 ^ 64
  pub priority_u128 : tx.max_priority_fee_per_gas < 2 ^ 128
  pub fee_u128 : tx.max_fee_per_gas < 2 ^ 128
  pub gas_u64 : tx.gas_limit < 2 ^ 64
  pub to_usize : length tx.to < 2 ^ 64
  pub value_u256 : tx.value < 2 ^ 256
  pub calldata_usize : length tx.calldata < 2 ^ 64

words_8 : words 8 ≡ 2 ^ 64
unfolding words
words_8 = refl

words_16 : words 16 ≡ 2 ^ 128
unfolding words
words_16 = refl

words_32 : words 32 ≡ 2 ^ 256
unfolding words
words_32 = refl

module _ (header : RlpHeader) where
  -- The bodies of two transactions differ, or the transactions are one.
  body_of-cancel :
      (tx tx' : Eip1559Tx) (sig sig' : Option (ℕ × (Bytes × Bytes)))
      → IsWords tx
      → IsWords tx'
      → body_of header tx sig ≡ body_of header tx' sig'
      → (tx ≡ tx') × (signature_items header sig ≡ signature_items header sig')
  unfolding body_of
  body_of-cancel tx tx' sig sig' w w' e =
      let (e1, r1) =
        uint_to_rlp-cancel header 8 tx.chain_id tx'.chain_id _ _ (omega arith)
          (omega (arith, words_8, w.chain_id_u64)) (omega (arith, words_8, w'.chain_id_u64)) e in
      let (e2, r2) =
        uint_to_rlp-cancel header 8 tx.nonce tx'.nonce _ _ (omega arith)
          (omega (arith, words_8, w.nonce_u64)) (omega (arith, words_8, w'.nonce_u64)) r1 in
      let (e3, r3) =
        uint_to_rlp-cancel header 16 tx.max_priority_fee_per_gas tx'.max_priority_fee_per_gas _ _
          (omega arith) (omega (arith, words_16, w.priority_u128))
          (omega (arith, words_16, w'.priority_u128)) r2 in
      let (e4, r4) =
        uint_to_rlp-cancel header 16 tx.max_fee_per_gas tx'.max_fee_per_gas _ _ (omega arith)
          (omega (arith, words_16, w.fee_u128)) (omega (arith, words_16, w'.fee_u128)) r3 in
      let (e5, r5) =
        uint_to_rlp-cancel header 8 tx.gas_limit tx'.gas_limit _ _ (omega arith)
          (omega (arith, words_8, w.gas_u64)) (omega (arith, words_8, w'.gas_u64)) r4 in
      let (e6, r6) = bytes_to_rlp-cancel header tx.to tx'.to _ _ w.to_usize w'.to_usize r5 in
      let (e7, r7) =
        uint_to_rlp-cancel header 32 tx.value tx'.value _ _ (omega arith)
          (omega (arith, words_32, w.value_u256)) (omega (arith, words_32, w'.value_u256)) r6 in
      let (e8, r8) =
        bytes_to_rlp-cancel header tx.calldata tx'.calldata _ _ w.calldata_usize w'.calldata_usize
          r7 in
      (cc, cc)

  payload-cancel :
      (tx tx' : Eip1559Tx) (sig sig' : Option (ℕ × (Bytes × Bytes)))
      → length (body_of header tx sig) < 2 ^ 64
      → length (body_of header tx' sig') < 2 ^ 64
      → encode_payload header tx sig ≡ encode_payload header tx' sig'
      → body_of header tx sig ≡ body_of header tx' sig'
  unfolding encode_payload
  payload-cancel tx tx' sig sig' h h' e =
      let read =
        header.read-encode true (length (body_of header tx sig)) (body_of header tx sig) h in
      let read' =
        header.read-encode true (length (body_of header tx' sig')) (body_of header tx' sig') h' in
      cc

  -- Transactions of machine words that are signed as the same bytes are the same.
  pub encode_for_signing-injective :
      (tx tx' : Eip1559Tx)
      → IsWords tx
      → IsWords tx'
      → length (body_of header tx none) < 2 ^ 64
      → length (body_of header tx' none) < 2 ^ 64
      → encode_for_signing header tx ≡ encode_for_signing header tx'
      → tx ≡ tx'
  unfolding encode_for_signing
  encode_for_signing-injective tx tx' w w' h h' e =
      (body_of-cancel tx tx' none none w w' (payload-cancel tx tx' none none h h' (cc))).0

  -- And so with a signature of 32 bytes twice, which is the same too.
  pub encode_signed-injective :
      (tx tx' : Eip1559Tx) (y y' : ℕ) (r s r' s' : Bytes)
      → IsWords tx
      → IsWords tx'
      → y < 2 ^ 64
      → y' < 2 ^ 64
      → (length r ≡ 32) × (length s ≡ 32) × (length r' ≡ 32) × (length s' ≡ 32)
      → length (body_of header tx (some (y, (r, s)))) < 2 ^ 64
      → length (body_of header tx' (some (y', (r', s')))) < 2 ^ 64
      → encode_signed header tx y r s ≡ encode_signed header tx' y' r' s'
      → (tx ≡ tx') × (y ≡ y') × (r ≡ r') × (s ≡ s')
  unfolding encode_signed signature_items
  encode_signed-injective tx tx' y y' r s r' s' w w' hy hy' (lr, ls, lr', ls') h h' e =
      let (same, items) =
        body_of-cancel tx tx' (some (y, (r, s))) (some (y', (r', s'))) w w'
          (payload-cancel tx tx' (some (y, (r, s))) (some (y', (r', s'))) h h' (cc)) in
      let (ey, rest) =
        uint_to_rlp-cancel header 8 y y' _ _ (omega arith) (omega (arith, words_8))
          (omega (arith, words_8)) items in
      let (er, rest_s) = int32_to_rlp-cancel header r r' _ _ lr lr' rest in
      let (es, none_left) = int32_to_rlp-cancel header s s' [] [] ls ls' (
        append-nil (int32_to_rlp header s)
        ∙ (rest_s ∙ sym (append-nil (int32_to_rlp header s')))) in
      (same, ey, er, es)
