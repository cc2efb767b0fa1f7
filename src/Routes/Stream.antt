-- ===== src/Routes/Stream.antt =====
-- src/routes/invoke.rs, invoke_capability_stream: the loop that passes the provider's events on.
-- The crate `serde_json`, the operations of `f64`, the decoder of UTF-8, the charge in the database and
-- what axum's builder of events takes without a panic are parameters. The times are whole seconds, rounded down, which the test against a whole number does
-- not tell from the exact ones. Of a message the model has the part that varies.
pub mod Events
pub mod Ending
mod Tests
use jecp_server.Prelude.{
  ℕ, ◌+◌, ◌%◌, ◌^◌, Bool, true, false, ◌||◌, Option, none, some, List, [], ◌∷◌, ◌++◌, Text, codes,
  text_eq, leb, if◌then◌else◌,
}
use jecp_server.Routes.Sse.{SseParser, ParsedSseEvent, new, feed}

abbrev pub stream_total_timeout_secs : ℕ
stream_total_timeout_secs = 300

pub record AccumulatedMeter (F : Type 0) : Type 0 where
  pub tokens : F
  pub chunks : ℕ
  pub elapsed_ms : F
  pub audio_seconds : F

-- What `update` and `summary` use of JSON values and of floats.
pub record Json (Value F : Type 0) : Type 0 where
  pub from_str : Text → Option Value
  pub get : Text → Value → Option Value
  pub as_f64 : Value → Option F
  pub null : Value
  pub zero_f64 : F
  pub add : F → F → F
  pub max_f64 : F → F → F
  pub as_u64 : F → ℕ

-- `ev.get(name).and_then(|v| v.as_f64())`.
unfoldable pub number : {Value F : Type 0} → Json Value F → Text → Value → Option F
number json name ev = elim (json.get name ev) [ none ↦ none | some v ↦ json.as_f64 v ]

unfoldable pub default_meter : {Value F : Type 0} → Json Value F → AccumulatedMeter F
default_meter json = record {
  tokens = json.zero_f64;
  chunks = 0;
  elapsed_ms = json.zero_f64;
  audio_seconds = json.zero_f64;
}

-- The effect of one field on its counter.
unfoldable pub update_by : {F A : Type 0} → (A → F → A) → Option F → A → A
update_by f none a = a
update_by f (some n) a = f a n

unfoldable pub update :
    {Value F : Type 0} → Json Value F → Value → AccumulatedMeter F → AccumulatedMeter F
unfolding number update_by
update json ev m = record {
  tokens = update_by json.add (number json (codes "tokens") ev) m.tokens;
  chunks =
      update_by (λ a n. (a + json.as_u64 n) % 2 ^ 64) (number json (codes "chunks") ev) m.chunks;
  elapsed_ms = update_by json.max_f64 (number json (codes "elapsed_ms") ev) m.elapsed_ms;
  audio_seconds = update_by json.add (number json (codes "audio_seconds") ev) m.audio_seconds;
}

-- The data of an event that goes out.
pub data Payload (Value F Billing : Type 0) : Type 0 where
  opened : Payload Value F Billing
  forwarded : Text → Payload Value F Billing
  final : Value → Billing → AccumulatedMeter F → Payload Value F Billing
  stream_timeout provider_timeout stream_incomplete : Payload Value F Billing
  provider_disconnect : Text → Payload Value F Billing

pub record Outgoing (Value F Billing : Type 0) : Type 0 where
  pub name : Text
  pub payload : Payload Value F Billing

-- What the wait for the next bytes gives: bytes, a read error, the end, or nothing in time.
pub data Next : Type 0 where
  bytes : Text → Next
  read_error : Text → Next
  closed no_progress : Next

-- `terminated` says that the stream is over, also where a panic ended it.
pub record StreamState (Value F Billing World : Type 0) : Type 0 where
  pub parser : SseParser
  pub accumulated : AccumulatedMeter F
  pub completed_seen : Bool
  pub terminated : Bool
  pub panicked : Bool
  pub world : World
  pub sent : List (Outgoing Value F Billing)

module _ {Value F Billing World : Type 0} (json : Json Value F) (from_utf8_lossy : Text → Text)
    (accepts : Text → Text → Bool) (run_invoke_charge : World → Billing × World) where
  abbrev State : Type 0
  State = StreamState Value F Billing World

  -- An event of the hub's own, which the builder takes: the name is a literal, and JSON text has no line end.
  unfoldable pub send : Text → Payload Value F Billing → State → State
  send name payload s = record s { sent = s.sent ++ record { name = name; payload = payload } ∷ [] }

  unfoldable pub end_with : Text → Payload Value F Billing → State → State
  unfolding send
  end_with name payload s = record (send name payload s) { terminated = true }

  -- `Event::default().event(&ev.event).data(ev.data.clone())`: the builder panics on a name or on data that it
  -- does not take. Nothing is sent then, and nothing after it.
  unfoldable pub send_provider : ParsedSseEvent → State → State
  unfolding send
  send_provider ev s =
      if accepts ev.event ev.content
      then send ev.event (forwarded ev.content) s
      else record s { terminated = true; panicked = true }

  -- `from_str(&ev.data)`, taken up where the event is a meter's and its data are JSON.
  unfoldable pub meter : ParsedSseEvent → AccumulatedMeter F → AccumulatedMeter F
  unfolding update
  meter ev m =
      if text_eq ev.event (codes "meter")
      then elim (json.from_str ev.content) [ none ↦ m | some v ↦ update json v m ]
      else m

  unfoldable pub provider_payload : ParsedSseEvent → Value
  provider_payload ev = elim (json.from_str ev.content) [ none ↦ json.null | some v ↦ v ]

  unfoldable pub result_of : Value → Value
  result_of v = elim (json.get (codes "result") v) [ none ↦ v | some r ↦ r ]

  unfoldable pub complete : ParsedSseEvent → State → State
  unfolding provider_payload result_of end_with
  complete ev s =
      end_with (codes "completed")
        (final (result_of (provider_payload ev)) (run_invoke_charge s.world).0 s.accumulated)
        (record s { completed_seen = true; world = (run_invoke_charge s.world).1 })

  -- The `match` on the event's name.
  unfoldable pub on_event : ParsedSseEvent → State → State
  unfolding meter complete send_provider
  on_event ev s =
      let s' : State = record s { accumulated = meter ev s.accumulated } in
      if text_eq ev.event (codes "completed")
      then complete ev s'
      else if text_eq ev.event (codes "error") || text_eq ev.event (codes "cancelled")
      then record (send_provider ev s') { terminated = true }
      else send_provider ev s'

  -- The loop that pops the queue, until it is empty or the stream is terminated.
  unfoldable pub drain_queue : List ParsedSseEvent → State → State
  unfolding on_event
  drain_queue [] s = record s { parser = record s.parser { queue = [] } }
  drain_queue (ev ∷ queue) s = elim (on_event ev s).terminated [
    | true ↦ record (on_event ev s) { parser = record s.parser { queue = queue } }
    | false ↦ drain_queue queue (on_event ev s)
  ]

  unfoldable pub on_next : Next → State → State
  unfolding drain_queue end_with
  on_next (bytes b) s =
      let parser = feed from_utf8_lossy b s.parser in
      drain_queue parser.queue (record s { parser = parser })
  on_next (read_error e) s = end_with (codes "error") (provider_disconnect e) s
  on_next closed s =
      if s.completed_seen
      then record s { terminated = true }
      else end_with (codes "error") stream_incomplete s
  on_next no_progress s = end_with (codes "cancelled") provider_timeout s

  -- One round: the time since the start, and what the wait gives if it is reached.
  unfoldable pub round : ℕ × Next → State → State
  unfolding on_next end_with
  round (elapsed, next) s =
      if leb stream_total_timeout_secs elapsed
      then end_with (codes "cancelled") stream_timeout s
      else on_next next s

  -- The loop, on the rounds that it could go through.
  unfoldable pub stream_loop : List (ℕ × Next) → State → State
  unfolding round
  stream_loop [] s = s
  stream_loop (r ∷ rest) s = elim (round r s).terminated [
    | true ↦ round r s
    | false ↦ stream_loop rest (round r s)
  ]

  unfoldable pub start : World → State
  unfolding default_meter
  start world = record {
    parser = new;
    accumulated = default_meter json;
    completed_seen = false;
    terminated = false;
    panicked = false;
    world = world;
    sent = record { name = codes "open"; payload = opened } ∷ [];
  }
