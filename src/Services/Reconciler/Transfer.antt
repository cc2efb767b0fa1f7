-- ===== src/Services/Reconciler/Transfer.antt =====
-- Which log of a receipt the reconciler looks at.
use jecp_server.Prelude.{◌≡◌, refl, true, false, List, [], ◌∷◌, ◌++◌, any, Text, arith, none}
use jecp_server.Services.Reconciler.{
  RawLog, extract_transfer_observation, is_usdc_transfer, observe,
}

-- The log that is read is the first Transfer of the USDC contract, and the others do not count: neither
-- those before it, which are not Transfers of that contract, nor any after it.
pub extract_transfer_observation-first :
    (usdc_asset : Text) (before : List RawLog) (log : RawLog) (after : List RawLog)
    → any (is_usdc_transfer usdc_asset) before ≡ false
    → is_usdc_transfer usdc_asset log ≡ true
    → extract_transfer_observation usdc_asset (before ++ log ∷ after) ≡ observe log
unfolding extract_transfer_observation
extract_transfer_observation-first usdc_asset [] log after n y = ground arith
extract_transfer_observation-first usdc_asset (other ∷ before) log after n y =
    ground (arith, extract_transfer_observation-first usdc_asset before log after)

-- Without such a log nothing is observed.
pub extract_transfer_observation-absent :
    (usdc_asset : Text) (logs : List RawLog)
    → any (is_usdc_transfer usdc_asset) logs ≡ false
    → extract_transfer_observation usdc_asset logs ≡ none
unfolding extract_transfer_observation
extract_transfer_observation-absent usdc_asset [] n = refl
extract_transfer_observation-absent usdc_asset (log ∷ logs) n =
    ground (arith, extract_transfer_observation-absent usdc_asset logs)
