-- ===== src/Routes/Invoke/Effects.antt =====
-- src/routes/invoke.rs: what a call does to others, and in which order.
use jecp_server.Prelude.{◌⊎◌, Option, Result}
use jecp_server.Routes.InvokeChecks.{Answer, ResolvedCapability}
use jecp_server.Routes.InvokeX402.{X402Billing}
use jecp_server.Routes.Invoke.{
  World, AppState, Readings, Handler, ◌>>=◌, forward, InvokeResponse, finish,
}
use jecp_server.Routes.Invoke.Guarded.{IsCleared}
use jecp_server.Routes.Invoke.Outcomes.{IsRefused, IsDone}

module _ {F C : Type 0} (state : AppState F C) (r : Readings F) where
  -- The part after the payment, from the state that the payment left.
  abbrev rest_of : ResolvedCapability F × F → Option X402Billing → Handler F C (InvokeResponse F)
  rest_of terms billing = forward state r terms.0 >>= finish state r terms.1 billing

  abbrev IsWhole : World F C → Result Answer (InvokeResponse F) × World F C → Type 0
  IsWhole w x =
      IsRefused state r w.log w.settlements x
      ⊎ ((terms : ResolvedCapability F × F) × IsCleared state r w terms
          × IsDone state r w.log w.settlements terms x)
