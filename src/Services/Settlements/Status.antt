-- ===== src/Services/Settlements/Status.antt =====
-- The status column of src/services/x402_settlements.rs: its text form, and what each statement may do.
use jecp_server.Prelude.{◌≡◌, refl}
use jecp_server.Protocol.X402Types.{
  X402SettlementStatus, facilitator_attested, chain_confirmed, mismatched, failed, orphaned, as_str,
}
use jecp_server.Services.Settlements.{parse_status}

-- A status that is written to the database is read back as itself.
pub parse_status-as_str : (s : X402SettlementStatus) → parse_status (as_str s) ≡ s
unfolding parse_status as_str
parse_status-as_str facilitator_attested = refl
parse_status-as_str chain_confirmed = refl
parse_status-as_str mismatched = refl
parse_status-as_str failed = refl
parse_status-as_str orphaned = refl
