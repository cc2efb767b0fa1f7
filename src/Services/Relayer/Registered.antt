-- ===== src/Services/Relayer/Registered.antt =====
-- src/services/x402_relayer_aws_kms.rs: the bytes that are signed determine the registration.
use jecp_server.Prelude.{◌<◌, ◌^◌, ◌≡◌, ap, sym, ◌∙◌, none, ok, length}
use jecp_server.Services.Relayer.BigEndian.{Bytes}
use jecp_server.Services.Relayer.Transaction.{
  Eip1559Tx, RegisterAuthorization, body_of, encode_for_signing,
}
use jecp_server.Services.Relayer.Transaction.Rlp.{IsWords, encode_for_signing-injective}
use jecp_server.Services.Relayer.Transaction.Calldata.{IsSized, encode_register_calldata-injective}
use jecp_server.Services.Relayer.{Signer, Node, register_tx}
use jecp_server.Services.Relayer.Sent.{register_tx-ok}

-- Two requests whose transactions, of machine words and of bodies that a word can measure, are signed
-- as the same bytes are for one splitter, one authorization and one signature of the provider.
pub register_tx-injective :
    (signer : Signer) (node node' : Node) (splitter splitter' : Bytes)
    (auth auth' : RegisterAuthorization) (sig sig' : Bytes) (tx tx' : Eip1559Tx)
    → IsSized auth sig
    → IsSized auth' sig'
    → register_tx signer node splitter auth sig ≡ ok tx
    → register_tx signer node' splitter' auth' sig' ≡ ok tx'
    → IsWords tx
    → IsWords tx'
    → length (body_of signer.header tx none) < 2 ^ 64
    → length (body_of signer.header tx' none) < 2 ^ 64
    → encode_for_signing signer.header tx ≡ encode_for_signing signer.header tx'
    → (splitter ≡ splitter') × (auth ≡ auth') × (sig ≡ sig')
register_tx-injective signer node node' splitter splitter' auth auth' sig sig' tx tx' z z' e e' w w'
      h h' same =
    let one = encode_for_signing-injective signer.header tx tx' w w' h h' same in
    let (to, calls, _, _) = register_tx-ok signer node splitter auth sig tx e in
    let (to', calls', _, _) = register_tx-ok signer node' splitter' auth' sig' tx' e' in
    let (same_auth, same_sig) =
      encode_register_calldata-injective signer.keccak256 signer.signature_text auth auth' sig sig'
        z z' (sym calls ∙ (ap (λ (t : Eip1559Tx). t.calldata) one ∙ calls')) in
    (sym to ∙ (ap (λ (t : Eip1559Tx). t.to) one ∙ to'), same_auth, same_sig)
