-- ===== src/Routes/InvokeX402/Replay.antt =====
-- A payment header is good for one settlement.
use Prim.Native.String.{String}
use jecp_server.Prelude.{ℕ, ◌≡◌, true, Option, Text, any, ok}
use jecp_server.Protocol.X402Types.{PaymentPayload}
use jecp_server.Protocol.X402Verify.{decode_x_payment_header}
use jecp_server.Services.Settlements.{Table, same_payment}
use jecp_server.Services.Settlements.History.{History}
use jecp_server.Routes.InvokeX402.{Request, presented}

module _ (base64_decoded : Text → Option Text) (json_parsed : Text → Option PaymentPayload)
    (derive_capability_id : String → String → String → ℕ) where
  -- The header of a request holds the payload.
  abbrev pub Holds : Request → PaymentPayload → Type 0
  Holds q p =
      (raw : Text) × (presented q.x_payment ≡ ok raw)
      × (decode_x_payment_header base64_decoded json_parsed raw ≡ ok p)

  abbrev pub IsRecorded : PaymentPayload → Table → Type 0
  IsRecorded p t =
      any (same_payment p.payload.authorization.from p.payload.authorization.nonce) t ≡ true
