-- ===== src/Routes/Stream/Ending.antt =====
-- src/routes/invoke.rs, invoke_capability_stream: how a stream ends, and what is charged for it.
use jecp_server.Prelude.{
  subst, ℕ, ◌≡◌, refl, sym, inl, inr, Bool, true, false, ◌||◌, List, [], ◌∷◌, Text, codes, text_eq,
  leb, any, if◌then◌else◌, Bool-cases,
}
use jecp_server.Routes.Sse.{feed}
use jecp_server.Routes.Stream.{
  Json, stream_timeout, provider_timeout, stream_incomplete, provider_disconnect, Next, bytes,
  read_error, closed, no_progress, StreamState, end_with, on_next, round, stream_loop, start,
  stream_total_timeout_secs,
}
use jecp_server.Routes.Stream.Events.{
  IsRunning, IsEnded, IsOver, IsSound, over, running_not_over, end_with-IsEnded, parser-IsRunning,
  drain_queue-IsSound,
}

module _ {Value F Billing World : Type 0} (json : Json Value F) (from_utf8_lossy : Text → Text)
    (accepts : Text → Text → Bool) (run_invoke_charge : World → Billing × World) (w : World) where
  closed-IsEnded :
      (s : StreamState Value F Billing World)
      → IsRunning json from_utf8_lossy accepts run_invoke_charge w s
      → IsEnded json from_utf8_lossy accepts run_invoke_charge w
          (on_next json from_utf8_lossy accepts run_invoke_charge closed s)
  unfolding on_next text_eq
  closed-IsEnded s h =
      subst
        (λ (b : Bool). IsEnded json from_utf8_lossy accepts run_invoke_charge w (
          if b
          then record s { terminated = true }
          else end_with json from_utf8_lossy accepts run_invoke_charge (codes "error")
              stream_incomplete s))
        (sym h.not_completed)
        (end_with-IsEnded json from_utf8_lossy accepts run_invoke_charge w (codes "error")
          stream_incomplete s refl refl h)

  pub on_next-IsSound :
      (next : Next) (s : StreamState Value F Billing World)
      → IsRunning json from_utf8_lossy accepts run_invoke_charge w s
      → IsSound json from_utf8_lossy accepts run_invoke_charge w
          (on_next json from_utf8_lossy accepts run_invoke_charge next s)
  unfolding on_next text_eq
  on_next-IsSound (bytes b) s h =
      let p = feed from_utf8_lossy b s.parser in
      drain_queue-IsSound json from_utf8_lossy accepts run_invoke_charge w p.queue
        (record s { parser = p })
        (parser-IsRunning json from_utf8_lossy accepts run_invoke_charge w p s h)
  on_next-IsSound (read_error e) s h = inr (
      inl (
        end_with-IsEnded json from_utf8_lossy accepts run_invoke_charge w (codes "error")
          (provider_disconnect e) s refl refl h))
  on_next-IsSound closed s h = inr (inl (closed-IsEnded s h))
  on_next-IsSound no_progress s h = inr (
      inl (
        end_with-IsEnded json from_utf8_lossy accepts run_invoke_charge w (codes "cancelled")
          provider_timeout s refl refl h))

  pub round-IsSound :
      (r : ℕ × Next) (s : StreamState Value F Billing World)
      → IsRunning json from_utf8_lossy accepts run_invoke_charge w s
      → IsSound json from_utf8_lossy accepts run_invoke_charge w
          (round json from_utf8_lossy accepts run_invoke_charge r s)
  unfolding round text_eq
  round-IsSound (elapsed, next) s h = elim (Bool-cases (leb stream_total_timeout_secs elapsed)) [
    | inl late ↦
        rw (late, round)
          (inr (
            inl (
              end_with-IsEnded json from_utf8_lossy accepts run_invoke_charge w (codes "cancelled")
                stream_timeout s refl refl h)))
    | inr early ↦ rw (early, round) (on_next-IsSound next s h)
  ]

  loop-IsSound :
      (rs : List (ℕ × Next)) (s : StreamState Value F Billing World)
      → IsRunning json from_utf8_lossy accepts run_invoke_charge w s
      → IsSound json from_utf8_lossy accepts run_invoke_charge w
          (stream_loop json from_utf8_lossy accepts run_invoke_charge rs s)
  unfolding stream_loop
  loop-IsSound [] s h = inl h
  loop-IsSound (r ∷ rs) s h =
      let s' = round json from_utf8_lossy accepts run_invoke_charge r s in
      elim (round-IsSound r s h) [
        | inl running ↦ rw (running.is_open, stream_loop) (loop-IsSound rs s' running)
        | inr ended ↦
            rw (over json from_utf8_lossy accepts run_invoke_charge w s' ended, stream_loop)
              (inr ended)
      ]

  start-IsRunning :
      IsRunning json from_utf8_lossy accepts run_invoke_charge w
        (start json from_utf8_lossy accepts run_invoke_charge w)
  unfolding start text_eq
  start-IsRunning = record {
    is_open = refl;
    unbroken = refl;
    not_completed = refl;
    sent_midway = refl;
    uncharged = refl;
  }

  -- A stream is still open, with nothing charged and no event sent that ends it or bears a bill; or it is
  -- over, by its last event or by a panic.
  pub stream_loop-IsSound :
      (rs : List (ℕ × Next))
      → IsSound json from_utf8_lossy accepts run_invoke_charge w (
          stream_loop json from_utf8_lossy accepts run_invoke_charge rs
            (start json from_utf8_lossy accepts run_invoke_charge w))
  stream_loop-IsSound rs =
      loop-IsSound rs (start json from_utf8_lossy accepts run_invoke_charge w) start-IsRunning

  -- Whether the wait gives no bytes.
  abbrev pub is_last : Next → Bool
  is_last (bytes b) = false
  is_last (read_error e) = true
  is_last closed = true
  is_last no_progress = true

  on_next_last :
      (next : Next) (s : StreamState Value F Billing World)
      → is_last next ≡ true
      → IsRunning json from_utf8_lossy accepts run_invoke_charge w s
      → IsEnded json from_utf8_lossy accepts run_invoke_charge w
          (on_next json from_utf8_lossy accepts run_invoke_charge next s)
  unfolding on_next text_eq
  on_next_last (bytes b) s e h = cc
  on_next_last (read_error m) s e h =
      end_with-IsEnded json from_utf8_lossy accepts run_invoke_charge w (codes "error")
        (provider_disconnect m) s refl refl h
  on_next_last closed s e h = closed-IsEnded s h
  on_next_last no_progress s e h =
      end_with-IsEnded json from_utf8_lossy accepts run_invoke_charge w (codes "cancelled")
        provider_timeout s refl refl h

  round_last :
      (elapsed : ℕ) (next : Next) (s : StreamState Value F Billing World)
      → (leb stream_total_timeout_secs elapsed || is_last next) ≡ true
      → IsRunning json from_utf8_lossy accepts run_invoke_charge w s
      → IsEnded json from_utf8_lossy accepts run_invoke_charge w
          (round json from_utf8_lossy accepts run_invoke_charge (elapsed, next) s)
  unfolding round text_eq
  round_last elapsed next s e h = elim (Bool-cases (leb stream_total_timeout_secs elapsed)) [
    | inl late ↦
        rw (late, round)
          (end_with-IsEnded json from_utf8_lossy accepts run_invoke_charge w (codes "cancelled")
            stream_timeout s refl refl h)
    | inr early ↦ rw (early, round) (on_next_last next s (rw early at e) h)
  ]

  -- A round that ends the stream whatever came before: the time is up, or no bytes come.
  abbrev pub is_last_round : ℕ × Next → Bool
  is_last_round r = leb stream_total_timeout_secs r.0 || is_last r.1

  loop_last :
      (rs : List (ℕ × Next)) (s : StreamState Value F Billing World)
      → any is_last_round rs ≡ true
      → IsRunning json from_utf8_lossy accepts run_invoke_charge w s
      → IsOver json from_utf8_lossy accepts run_invoke_charge w
          (stream_loop json from_utf8_lossy accepts run_invoke_charge rs s)
  unfolding stream_loop
  loop_last [] s e h = cc
  loop_last (r ∷ rs) s e h =
      let s' = round json from_utf8_lossy accepts run_invoke_charge r s in
      elim (round-IsSound r s h) [
        | inl running ↦ elim (Bool-cases (is_last_round r)) [
          | inl here ↦ absurd (
              running_not_over json from_utf8_lossy accepts run_invoke_charge w s' running
                (inl (round_last r.0 r.1 s here h)))
          | inr not_here ↦
              rw (running.is_open, stream_loop) (loop_last rs s' (rw not_here at e) running)
        ]
        | inr ended ↦
            rw (over json from_utf8_lossy accepts run_invoke_charge w s' ended, stream_loop) ended
      ]

  -- A stream is over as soon as the provider closes it, fails or stays silent for the time allowed, or the
  -- whole time is up. Then its last event, and no other, is a terminal one, and the world is as it was before,
  -- or the last event is `completed` with the bill of the one charge that was made; or axum's builder of events
  -- panicked on an event of the provider's that it does not take, no terminal event was sent and nothing
  -- was charged.
  pub stream_loop-IsOver :
      (rs : List (ℕ × Next))
      → any is_last_round rs ≡ true
      → IsOver json from_utf8_lossy accepts run_invoke_charge w (
          stream_loop json from_utf8_lossy accepts run_invoke_charge rs
            (start json from_utf8_lossy accepts run_invoke_charge w))
  stream_loop-IsOver rs e =
      loop_last rs (start json from_utf8_lossy accepts run_invoke_charge w) e start-IsRunning
