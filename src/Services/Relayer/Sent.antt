-- ===== src/Services/Relayer/Sent.antt =====
-- src/services/x402_relayer_aws_kms.rs: what the relayer submits.
use Prim.Native.String.{String}
use jecp_server.Prelude.{
  ℕ, ◌≤◌, ◌<◌, ◌≡◌, refl, ap, sym, ◌∙◌, inl, inr, ◌⊎◌, Bool, true, Option, some, List, [], ◌∷◌,
  ◌++◌, arith, length, Result, ok, err, guard, ok_or, ◌>>=◌, >>=-eq-ok, ok_or-eq-ok, ok-injective,
  Result-cases, Bool-cases, subst, if◌then◌else◌,
}
use mathlib.Core.List.{append-nil}
use jecp_server.Services.Relayer.BigEndian.{Bytes, IsBytes, of_be}
use jecp_server.Services.Relayer.Signature.{
  normalize_s, parse_der_signature, secp256k1_n, secp256k1_n_half,
}
use jecp_server.Services.Relayer.Signature.LowS.{normalize_s-IsLow}
use jecp_server.Services.Relayer.Signature.Der.{der_signature, parse_der_signature-der_signature}
use jecp_server.Services.Relayer.Transaction.{
  Eip1559Tx, RegisterAuthorization, encode_signed, encode_register_calldata,
}
use jecp_server.Services.Relayer.{
  RelayerError, rpc, Signer, Node, recovers, recover_y_parity, or_rpc, kms_sign, signing_digest,
  register_tx, signed_tx, submit, send_register_tx, get_nonce, get_gas_price, estimate_gas,
}

first_match :
    (matches : ℕ → Bool) (failed : RelayerError) (y : ℕ)
    → (if matches 0 then ok 0 else if matches 1 then ok 1 else err failed) ≡ ok y
    → (y ≤ 1) × (matches y ≡ true)
first_match matches failed y h = elim (Bool-cases (matches 0)) [
  | inl at_0 ↦
      subst (λ (v : ℕ). (v ≤ 1) × (matches v ≡ true)) (ok-injective (rw at_0 at h))
        (omega arith, at_0)
  | inr not_0 ↦ elim (Bool-cases (matches 1)) [
    | inl at_1 ↦
        subst (λ (v : ℕ). (v ≤ 1) × (matches v ≡ true)) (ok-injective (rw (not_0, at_1) at h))
          (omega arith, at_1)
    | inr not_1 ↦ absurd (cc (rw (not_0, not_1) at h))
  ]
]

module _ (signer : Signer) where
  -- The key service answers with DER signatures of two numbers, the second below the order.
  pub record IsDerSigner : Type 0 where
    pub signs :
        (digest der : Bytes)
        → signer.kms_sign_digest digest ≡ ok (some der)
        → (r : Bytes) × (s : Bytes) × (der ≡ der_signature r s)
          × (length r ≡ 32)
          × (length s ≡ 32)
          × IsBytes s
          × (of_be s < of_be secp256k1_n)

  -- A signature of the digest by the relayer's key, in its low form.
  pub record IsSignature (digest : Bytes) (y : ℕ) (r s : Bytes) : Type 0 where
    pub parity : y ≤ 1
    pub recovered : recovers signer digest r s y signer.address ≡ true
    pub sizes : (length r ≡ 32) × (length s ≡ 32)
    pub low : of_be s ≤ of_be secp256k1_n_half

  or_rpc-ok :
      {E A : Type 0} (message : String) (r : Result E A) (a : A)
      → or_rpc signer message r ≡ ok a
      → r ≡ ok a
  unfolding or_rpc
  or_rpc-ok message (ok b) a h = cc
  or_rpc-ok message (err e) a h = cc

  recover_y_parity-ok :
      (digest r s expected : Bytes) (y : ℕ)
      → recover_y_parity signer digest r s expected ≡ ok y
      → (y ≤ 1) × (recovers signer digest r s y expected ≡ true)
  unfolding recover_y_parity
  recover_y_parity-ok digest r s expected y h =
      let (_, _, tried) =
        >>=-eq-ok (guard (signer.from_slice (r ++ s)) (rpc "k256 sig decode")) _ h in
      first_match (λ (v : ℕ). recovers signer digest r s v expected) _ y tried

  kms_sign-ok :
      IsDerSigner
      → (digest r s : Bytes) → kms_sign signer digest ≡ ok (r, s)
      → (length r ≡ 32) × (length s ≡ 32) × (of_be s ≤ of_be secp256k1_n_half)
  unfolding kms_sign
  kms_sign-ok law digest r s h =
      let (answer, h0, h1) =
        >>=-eq-ok (or_rpc signer "kms sign" (signer.kms_sign_digest digest)) _ h in
      let (der, h2, h3) = >>=-eq-ok (ok_or answer (rpc "kms sign: no signature")) _ h1 in
      let (rs, h4, h5) = >>=-eq-ok (or_rpc signer "kms der" (parse_der_signature der)) _ h3 in
      let (r0, s0, e, hr, hs, bytes, below) = law.signs digest der (
        or_rpc-ok "kms sign" (signer.kms_sign_digest digest) answer h0
        ∙ ap (λ (o : Option Bytes). ok o) (ok_or-eq-ok answer _ h2)) in
      let read =
        ap parse_der_signature (e ∙ sym (append-nil (der_signature r0 s0)))
        ∙ parse_der_signature-der_signature r0 s0 [] hr hs in
      let pair = ok-injective (sym (or_rpc-ok "kms der" (parse_der_signature der) rs h4) ∙ read) in
      let out = ok-injective h5 in
      let (value, low, len, _, _) = normalize_s-IsLow s0 bytes hs below in
      subst
        (λ (p : Bytes × Bytes).
          (length p.0 ≡ 32) × (length p.1 ≡ 32) × (of_be p.1 ≤ of_be secp256k1_n_half))
        (ap (λ (p : Bytes × Bytes). (p.0, (normalize_s p.1).0)) (sym pair) ∙ out) (hr, len, low)

  -- What the relayer may submit for an authorization: one transaction that calls the splitter with
  -- it, sends no value, and bears a low signature of its own digest that recovers to the relayer.
  pub record IsRegistration (splitter_address : Bytes) (auth : RegisterAuthorization)
      (provider_sig raw : Bytes) : Type 0 where
    pub tx : Eip1559Tx
    pub y : ℕ
    pub r : Bytes
    pub s : Bytes
    pub encoded : raw ≡ encode_signed signer.header tx y r s
    pub destination : tx.to ≡ splitter_address
    pub calls :
        tx.calldata
        ≡ encode_register_calldata signer.keccak256 signer.signature_text auth provider_sig
    pub on_chain : tx.chain_id ≡ signer.chain_id
    pub no_value : tx.value ≡ 0
    pub signature : IsSignature (signing_digest signer tx) y r s

  abbrev pub IsSubmitted : Bytes → RegisterAuthorization → Bytes → List Bytes → Type 0
  IsSubmitted splitter_address auth provider_sig sent =
      (sent ≡ [])
      ⊎ ((raw : Bytes) × (sent ≡ raw ∷ []) × IsRegistration splitter_address auth provider_sig raw)

  pub register_tx-ok :
      (node : Node) (splitter_address : Bytes) (auth : RegisterAuthorization) (provider_sig : Bytes)
      (tx : Eip1559Tx)
      → register_tx signer node splitter_address auth provider_sig ≡ ok tx
      → (tx.to ≡ splitter_address)
        × (tx.calldata
            ≡ encode_register_calldata signer.keccak256 signer.signature_text auth provider_sig)
        × (tx.chain_id ≡ signer.chain_id)
        × (tx.value ≡ 0)
  unfolding register_tx
  register_tx-ok node splitter_address auth provider_sig tx h =
      let calldata =
        encode_register_calldata signer.keccak256 signer.signature_text auth provider_sig in
      let (nonce, _, h1) = >>=-eq-ok (get_nonce node.transaction_count) _ h in
      let (base, _, h2) = >>=-eq-ok (get_gas_price node.gas_price) _ h1 in
      let (est, _, h3) =
        >>=-eq-ok (estimate_gas (node.gas_estimate splitter_address calldata)) _ h2 in
      subst
        (λ (t : Eip1559Tx).
          (t.to ≡ splitter_address)
          × (t.calldata ≡ calldata)
          × (t.chain_id ≡ signer.chain_id)
          × (t.value ≡ 0))
        (ok-injective h3) (refl, refl, refl, refl)

  signed_tx-ok :
      IsDerSigner
      → (tx : Eip1559Tx) (raw : Bytes) → signed_tx signer tx ≡ ok raw
      → (y : ℕ) × (r : Bytes) × (s : Bytes) × (raw ≡ encode_signed signer.header tx y r s)
        × IsSignature (signing_digest signer tx) y r s
  unfolding signed_tx
  signed_tx-ok law tx raw h =
      let digest = signing_digest signer tx in
      let (rs, h0, h1) = >>=-eq-ok (kms_sign signer digest) _ h in
      let (y, h2, h3) = >>=-eq-ok (recover_y_parity signer digest rs.0 rs.1 signer.address) _ h1 in
      let (hr, hs, is_low) = kms_sign-ok law digest rs.0 rs.1 h0 in
      let (small, found) = recover_y_parity-ok digest rs.0 rs.1 signer.address y h2 in
      (
        y,
        rs.0,
        rs.1,
        sym (ok-injective h3),
        record { parity = small; recovered = found; sizes = (hr, hs); low = is_low },
      )

  -- With a key service that signs in DER, the relayer submits nothing, or one registration of just
  -- what it was asked to register, whatever the node answers.
  pub send_register_tx-IsSubmitted :
      IsDerSigner
      → (node : Node) (splitter_address : Bytes) (auth : RegisterAuthorization)
        (provider_sig : Bytes)
      → IsSubmitted splitter_address auth provider_sig
          (send_register_tx signer node splitter_address auth provider_sig).1
  unfolding send_register_tx submit
  send_register_tx-IsSubmitted law node splitter_address auth provider_sig =
      elim (Result-cases prepared) [
        | inl (raw, e) ↦
            subst
              (λ (p : Result RelayerError Bytes).
                IsSubmitted splitter_address auth provider_sig (submit signer node p).1)
              (sym e) (inr (raw, refl, registration raw e))
        | inr (why, e) ↦
            subst
              (λ (p : Result RelayerError Bytes).
                IsSubmitted splitter_address auth provider_sig (submit signer node p).1)
              (sym e) (inl refl)
      ]
    where
      prepared : Result RelayerError Bytes
      prepared = register_tx signer node splitter_address auth provider_sig >>= signed_tx signer

      registration :
          (raw : Bytes) → prepared ≡ ok raw → IsRegistration splitter_address auth provider_sig raw
      registration raw e =
          let (tx, h0, h1) =
            >>=-eq-ok (register_tx signer node splitter_address auth provider_sig)
              (signed_tx signer) e in
          let (dest, calls_it, chain, free) =
            register_tx-ok node splitter_address auth provider_sig tx h0 in
          let (y, r, s, encoded_as, signed) = signed_tx-ok law tx raw h1 in
          record {
            tx = tx;
            y = y;
            r = r;
            s = s;
            encoded = encoded_as;
            destination = dest;
            calls = calls_it;
            on_chain = chain;
            no_value = free;
            signature = signed;
          }
