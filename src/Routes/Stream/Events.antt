-- ===== src/Routes/Stream/Events.antt =====
-- src/routes/invoke.rs, invoke_capability_stream: what the events of a provider make of a stream.
use jecp_server.Prelude.{
  ◌≢◌, ◌≡◌, refl, sym, ap, ◌∙◌, ◌⊎◌, inl, inr, Bool, true, false, ◌&&◌, ◌||◌, not, List, [], ◌∷◌,
  ◌++◌, Text, codes, text_eq, all, arith, Bool-cases,
}
use jecp_server.Routes.Sse.{SseParser, ParsedSseEvent}
use jecp_server.Routes.Stream.{
  Json, AccumulatedMeter, Payload, opened, forwarded, final, stream_timeout, provider_timeout,
  stream_incomplete, provider_disconnect, Outgoing, StreamState, send, send_provider, end_with,
  result_of, provider_payload, meter, complete, on_event, drain_queue,
}

-- The events that end a stream.
abbrev pub is_terminal : Text → Bool
is_terminal name =
    text_eq name (codes "completed")
    || (text_eq name (codes "error") || text_eq name (codes "cancelled"))

true_ne_false : true ≢ false
true_ne_false e = cc

module _ {Value F Billing : Type 0} where
  abbrev pub is_final : Payload Value F Billing → Bool
  is_final (final v b m) = true
  is_final opened = false
  is_final (forwarded t) = false
  is_final stream_timeout = false
  is_final provider_timeout = false
  is_final stream_incomplete = false
  is_final (provider_disconnect e) = false

  -- An event that neither ends the stream nor bears a bill.
  abbrev pub is_midway : Outgoing Value F Billing → Bool
  is_midway o = not (is_terminal o.name) && not (is_final o.payload)

  all_snoc :
      (xs : List (Outgoing Value F Billing)) (x : Outgoing Value F Billing)
      → all is_midway xs ≡ true
      → is_midway x ≡ true
      → all is_midway (xs ++ x ∷ []) ≡ true
  all_snoc [] x hs h = ground arith
  all_snoc (y ∷ xs) x hs h = ground (arith, all_snoc xs x (ground arith) h)

module _ {Value F Billing World : Type 0} (json : Json Value F) (from_utf8_lossy : Text → Text)
    (accepts : Text → Text → Bool) (run_invoke_charge : World → Billing × World) (w : World) where
  -- The last event has no bill and nothing was charged, or it is the bill of the one charge.
  abbrev pub IsBilled : Outgoing Value F Billing → World → Type 0
  IsBilled last world =
      ((is_final last.payload ≡ false) × (world ≡ w))
      ⊎ ((v : Value) × (m : AccumulatedMeter F) × (last
            ≡ record { name = codes "completed"; payload = final v (run_invoke_charge w).0 m })
          × (world ≡ (run_invoke_charge w).1))

  pub record IsRunning (s : StreamState Value F Billing World) : Type 0 where
    pub is_open : s.terminated ≡ false
    pub unbroken : s.panicked ≡ false
    pub not_completed : s.completed_seen ≡ false
    pub sent_midway : all is_midway s.sent ≡ true
    pub uncharged : s.world ≡ w

  pub record IsEnded (s : StreamState Value F Billing World) : Type 0 where
    pub is_over : s.terminated ≡ true
    pub unbroken : s.panicked ≡ false
    pub before : List (Outgoing Value F Billing)
    pub last : Outgoing Value F Billing
    pub in_order : s.sent ≡ before ++ last ∷ []
    pub before_midway : all is_midway before ≡ true
    pub last_ends : is_terminal last.name ≡ true
    pub billed : IsBilled last s.world

  -- A stream that a panic ended, on an event of the provider's that the builder of events does not take.
  pub record IsBroken (s : StreamState Value F Billing World) : Type 0 where
    pub is_over : s.terminated ≡ true
    pub broken : s.panicked ≡ true
    pub culprit : ParsedSseEvent
    pub not_taken : accepts culprit.event culprit.content ≡ false
    pub sent_midway : all is_midway s.sent ≡ true
    pub uncharged : s.world ≡ w

  abbrev pub IsOver : StreamState Value F Billing World → Type 0
  IsOver s = IsEnded s ⊎ IsBroken s

  abbrev pub IsSound : StreamState Value F Billing World → Type 0
  IsSound s = IsRunning s ⊎ IsOver s

  pub over : (s : StreamState Value F Billing World) → IsOver s → s.terminated ≡ true
  over s (inl ended) = ended.is_over
  over s (inr broken) = broken.is_over

  pub running_not_over : (s : StreamState Value F Billing World) → IsRunning s → IsOver s → ⊥
  running_not_over s running ended = true_ne_false (sym (over s ended) ∙ running.is_open)

  pub end_with-IsEnded :
      (name : Text) (payload : Payload Value F Billing) (s : StreamState Value F Billing World)
      → is_terminal name ≡ true
      → is_final payload ≡ false
      → IsRunning s
      → IsEnded (end_with json from_utf8_lossy accepts run_invoke_charge name payload s)
  unfolding end_with send
  end_with-IsEnded name payload s ht hf h = record {
    is_over = refl;
    unbroken = h.unbroken;
    before = s.sent;
    last = record { name = name; payload = payload };
    in_order = refl;
    before_midway = h.sent_midway;
    last_ends = ht;
    billed = inl (hf, h.uncharged);
  }

  complete-IsEnded :
      (ev : ParsedSseEvent) (s : StreamState Value F Billing World)
      → IsRunning s
      → IsEnded (complete json from_utf8_lossy accepts run_invoke_charge ev s)
  unfolding complete end_with send text_eq
  complete-IsEnded ev s h =
      let v : Value =
        result_of json from_utf8_lossy accepts run_invoke_charge
          (provider_payload json from_utf8_lossy accepts run_invoke_charge ev) in
      let bill : World → Outgoing Value F Billing = λ x. record {
        name = codes "completed";
        payload = final v (run_invoke_charge x).0 s.accumulated;
      } in
      record {
        is_over = refl;
        unbroken = h.unbroken;
        before = s.sent;
        last = bill s.world;
        in_order = refl;
        before_midway = h.sent_midway;
        last_ends = refl;
        billed = inr (
          v,
          s.accumulated,
          ap bill h.uncharged,
          ap (λ (x : World). (run_invoke_charge x).1) h.uncharged,
        );
      }

  send-IsRunning :
      (name : Text) (payload : Payload Value F Billing) (s : StreamState Value F Billing World)
      → is_terminal name ≡ false
      → is_final payload ≡ false
      → IsRunning s
      → IsRunning (send json from_utf8_lossy accepts run_invoke_charge name payload s)
  unfolding send
  send-IsRunning name payload s ht hf h = record {
    is_open = h.is_open;
    unbroken = h.unbroken;
    not_completed = h.not_completed;
    sent_midway =
        all_snoc s.sent (record { name = name; payload = payload }) h.sent_midway
          (rw (ht, hf) refl);
    uncharged = h.uncharged;
  }

  metered-IsRunning :
      (m : AccumulatedMeter F) (s : StreamState Value F Billing World)
      → IsRunning s
      → IsRunning (record s { accumulated = m })
  metered-IsRunning m s h = record {
    is_open = h.is_open;
    unbroken = h.unbroken;
    not_completed = h.not_completed;
    sent_midway = h.sent_midway;
    uncharged = h.uncharged;
  }

  panicking-IsBroken :
      (ev : ParsedSseEvent) (s : StreamState Value F Billing World)
      → accepts ev.event ev.content ≡ false
      → IsRunning s
      → IsBroken (record s { terminated = true; panicked = true })
  panicking-IsBroken ev s e h = record {
    is_over = refl;
    broken = refl;
    culprit = ev;
    not_taken = e;
    sent_midway = h.sent_midway;
    uncharged = h.uncharged;
  }

  send_provider-IsSound :
      (ev : ParsedSseEvent) (s : StreamState Value F Billing World)
      → is_terminal ev.event ≡ false
      → IsRunning s
      → IsSound (send_provider json from_utf8_lossy accepts run_invoke_charge ev s)
  unfolding send_provider
  send_provider-IsSound ev s ht h = elim (Bool-cases (accepts ev.event ev.content)) [
    | inl e ↦
        rw (e, send_provider) (inl (send-IsRunning ev.event (forwarded ev.content) s ht refl h))
    | inr e ↦ rw (e, send_provider) (inr (inr (panicking-IsBroken ev s e h)))
  ]

  send_provider-IsOver :
      (ev : ParsedSseEvent) (s : StreamState Value F Billing World)
      → is_terminal ev.event ≡ true
      → IsRunning s
      → IsOver (record (send_provider json from_utf8_lossy accepts run_invoke_charge ev s) {
        terminated = true;
      })
  unfolding send_provider end_with
  send_provider-IsOver ev s ht h = elim (Bool-cases (accepts ev.event ev.content)) [
    | inl e ↦
        rw (e, send_provider) (inl (end_with-IsEnded ev.event (forwarded ev.content) s ht refl h))
    | inr e ↦ rw (e, send_provider) (inr (panicking-IsBroken ev s e h))
  ]

  pub on_event-IsSound :
      (ev : ParsedSseEvent) (s : StreamState Value F Billing World)
      → IsRunning s
      → IsSound (on_event json from_utf8_lossy accepts run_invoke_charge ev s)
  unfolding on_event
  on_event-IsSound ev s h =
      let m = meter json from_utf8_lossy accepts run_invoke_charge ev s.accumulated in
      let s' : StreamState Value F Billing World = record s { accumulated = m } in
      let h' = metered-IsRunning m s h in
      elim (Bool-cases (text_eq ev.event (codes "completed"))) [
        | inl c ↦ rw (c, on_event) (inr (inl (complete-IsEnded ev s' h')))
        | inr nc ↦
            elim (Bool-cases
              (text_eq ev.event (codes "error") || text_eq ev.event (codes "cancelled"))) [
                | inl t ↦
                    rw (nc, t, on_event) (inr (send_provider-IsOver ev s' (rw (nc, t) refl) h'))
                | inr nt ↦ rw (nc, nt, on_event) (send_provider-IsSound ev s' (rw (nc, nt) refl) h')
              ]
      ]

  pub parser-IsRunning :
      (p : SseParser) (s : StreamState Value F Billing World)
      → IsRunning s
      → IsRunning (record s { parser = p })
  parser-IsRunning p s h = record {
    is_open = h.is_open;
    unbroken = h.unbroken;
    not_completed = h.not_completed;
    sent_midway = h.sent_midway;
    uncharged = h.uncharged;
  }

  parser-IsEnded :
      (p : SseParser) (s : StreamState Value F Billing World)
      → IsEnded s
      → IsEnded (record s { parser = p })
  parser-IsEnded p s h = record {
    is_over = h.is_over;
    unbroken = h.unbroken;
    before = h.before;
    last = h.last;
    in_order = h.in_order;
    before_midway = h.before_midway;
    last_ends = h.last_ends;
    billed = h.billed;
  }

  parser-IsOver :
      (p : SseParser) (s : StreamState Value F Billing World)
      → IsOver s
      → IsOver (record s { parser = p })
  parser-IsOver p s (inl h) = inl (parser-IsEnded p s h)
  parser-IsOver p s (inr h) = inr (record {
    is_over = h.is_over;
    broken = h.broken;
    culprit = h.culprit;
    not_taken = h.not_taken;
    sent_midway = h.sent_midway;
    uncharged = h.uncharged;
  })

  pub drain_queue-IsSound :
      (queue : List ParsedSseEvent) (s : StreamState Value F Billing World)
      → IsRunning s
      → IsSound (drain_queue json from_utf8_lossy accepts run_invoke_charge queue s)
  unfolding drain_queue
  drain_queue-IsSound [] s h = inl (parser-IsRunning (record s.parser { queue = [] }) s h)
  drain_queue-IsSound (ev ∷ queue) s h =
      let s' = on_event json from_utf8_lossy accepts run_invoke_charge ev s in
      elim (on_event-IsSound ev s h) [
        | inl running ↦ rw (running.is_open, drain_queue) (drain_queue-IsSound queue s' running)
        | inr ended ↦
            rw (over s' ended, drain_queue)
              (inr (parser-IsOver (record s.parser { queue = queue }) s' ended))
      ]
