-- ===== src/Routes/Sse/Tests.antt =====
-- src/routes/invoke.rs: runs of the stream parser, those of the source's own tests among them.
use jecp_server.Prelude.{◌≡◌, refl, some, List, [], ◌∷◌, ◌++◌, Text, codes, text_eq}
use jecp_server.Routes.Sse.{
  ParsedSseEvent, new, cut, replace_crlf, starts_with, process_lines, process_line, dispatch,
  is_idle, unwrap_or_message, join, field_of, strip_space, set_field, feed, pop, newline,
}
use jecp_server.Routes.Sse.Chunks.{feed_all, feed_all-concat, concat}
use jecp_server.Routes.Sse.RoundTrip.{feed-print_all, print_all, parsed, idle}

-- A decoder of ASCII text.
abbrev ascii : Text → Text
ascii t = t

abbrev first_half : Text
first_half = codes "event: chu"

abbrev second_half : Text
second_half = codes "nk" ++ newline ∷ (codes "data: 1" ++ newline ∷ newline ∷ [])

abbrev chunk_event : ParsedSseEvent
chunk_event = record { event = codes "chunk"; content = codes "1" }

split_chunks : feed ascii second_half (feed ascii first_half new) ≡ idle (chunk_event ∷ [])
unfolding feed new cut replace_crlf starts_with process_lines process_line dispatch is_idle
    unwrap_or_message join field_of strip_space set_field text_eq
split_chunks = refl

-- An event with no name is a `message`, and a comment is no event.
message_and_comment :
    feed ascii
      (codes ": ping" ++ newline ∷ newline ∷ (codes "data:hi" ++ 13 ∷ newline ∷ newline ∷ []))
      new
    ≡ idle (record { event = codes "message"; content = codes "hi" } ∷ [])
unfolding feed new cut replace_crlf starts_with process_lines process_line dispatch is_idle
    unwrap_or_message join field_of strip_space set_field text_eq
message_and_comment = refl

popped : (pop (idle (chunk_event ∷ []))).0 ≡ some chunk_event
unfolding pop
popped = refl

feed_all-concat_example :
    feed_all ascii (first_half ∷ second_half ∷ []) new
    ≡ feed ascii (concat (first_half ∷ second_half ∷ [])) new
feed_all-concat_example = feed_all-concat ascii (λ s h. refl) first_half (second_half ∷ []) new refl

abbrev two_events : List (Text × List Text)
two_events = (codes "chunk", codes "a" ∷ codes "b" ∷ []) ∷ (codes "completed", codes "{}" ∷ []) ∷ []

feed-print_all_example : feed ascii (print_all two_events) new ≡ idle (parsed two_events)
feed-print_all_example = feed-print_all ascii two_events refl refl
