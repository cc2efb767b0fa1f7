-- ===== src/Services/Settlements/Tests.antt =====
-- An insertion, and what a later statement leaves of it.
use jecp_server.Prelude.{◌≡◌, refl, true, [], ok, err, none}
use jecp_server.Protocol.X402Types.{settlement_reused, nonce_reused}
use jecp_server.Services.Settlements.{NewSettlement, Table, insert}

abbrev settlement : NewSettlement
settlement = record {
  tx_hash = 99;
  payer = 7;
  eip3009_nonce = 3;
  agent_id = "agent";
  capability_id = "acme/translate";
  request_id = "r1";
  splitter_capability_id = 17;
  amount_usdc_micro = 100;
  provider_share_micro = 85;
  hub_share_micro = 10;
  network_share_micro = 5;
}

abbrev inserted : Table
inserted = (insert true true 150 1 settlement []).1

goes_in : (insert true true 150 1 settlement []).0 ≡ ok 1
unfolding insert
goes_in = refl

-- The same payment in another transaction.
refused_again :
    (insert true true 151 2 (record settlement { tx_hash = 100 }) inserted).0
    ≡ err (settlement_reused nonce_reused none)
unfolding insert
refused_again = refl
