-- ===== src/Routes/Stream/Tests.antt =====
-- src/routes/invoke.rs, invoke_capability_stream: runs of the loop.
use jecp_server.Prelude.{
  ℕ, Bool, true, not, any, ◌==◌, ◌+◌, ◌≡◌, refl, none, some, List, [], ◌∷◌, ◌++◌, Text, codes,
  text_eq, max, if◌then◌else◌,
}
use jecp_server.Routes.Sse.{
  newline, new, starts_with, replace_crlf, cut, join, unwrap_or_message, is_idle, dispatch,
  strip_space, field_of, set_field, process_line, process_lines, feed, pop,
}
use jecp_server.Routes.Stream.{
  Json, Next, bytes, closed, no_progress, start, stream_loop, update, number, update_by,
  default_meter, round, on_next, drain_queue, on_event, send_provider, meter, send, end_with,
}
use jecp_server.Routes.Stream.Events.{IsOver}
use jecp_server.Routes.Stream.Ending.{stream_loop-IsOver}

-- JSON values are texts, each a number of its own length; no field is there but `tokens`.
abbrev json : Json Text ℕ
json = record {
  from_str = λ t. some t;
  get = λ name v. if text_eq name (codes "tokens") then some v else none;
  as_f64 = λ v. some 3;
  null = [];
  zero_f64 = 0;
  add = λ a b. a + b;
  max_f64 = max;
  as_u64 = λ n. n;
}

abbrev ascii : Text → Text
ascii t = t

-- Each charge counts the world up.
abbrev charge : ℕ → ℕ × ℕ
charge w = (w, w + 1)

abbrev event_text : Text → Text
event_text name = codes "event: " ++ (name ++ newline ∷ (codes "data: x" ++ newline ∷ newline ∷ []))

abbrev paid_run : List (ℕ × Next)
paid_run =
    (0, bytes (event_text (codes "meter")))
    ∷ (2, bytes (event_text (codes "completed") ++ event_text (codes "completed")))
    ∷ (3, closed)
    ∷ []

abbrev silent_run : List (ℕ × Next)
silent_run = (0, bytes (event_text (codes "chunk"))) ∷ (31, no_progress) ∷ []

meter_counts : (update json (codes "x") (default_meter json)).tokens ≡ 3
unfolding update number update_by default_meter text_eq
meter_counts = refl

-- The events with a carriage return in their name are not taken.
abbrev takes : Text → Text → Bool
takes name content = not (any (λ c. c == 13) name)

-- An event whose name ends in a carriage return, which the end of a chunk splits from its line feed.
abbrev broken_run : List (ℕ × Next)
broken_run =
    (0, bytes (codes "event: chunk" ++ 13 ∷ []))
    ∷ (1, bytes (newline ∷ (codes "data: x" ++ newline ∷ newline ∷ [])))
    ∷ (3, closed)
    ∷ []

breaks :
    (stream_loop json ascii takes charge broken_run (start json ascii takes charge 7)).panicked
    ≡ true
unfolding stream_loop round on_next drain_queue on_event send_provider meter send start
    default_meter end_with text_eq new starts_with replace_crlf cut join unwrap_or_message is_idle
    dispatch strip_space field_of set_field process_line process_lines feed pop
breaks = refl

stream_loop-IsOver_example :
    IsOver json ascii takes charge 7
      (stream_loop json ascii takes charge silent_run (start json ascii takes charge 7))
stream_loop-IsOver_example = stream_loop-IsOver json ascii takes charge 7 silent_run refl
