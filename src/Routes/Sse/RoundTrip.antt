-- ===== src/Routes/Sse/RoundTrip.antt =====
-- src/routes/invoke.rs, SseParser: an event that is written in the stream's format is read back.
use mathlib.Core.List.{append_assoc, append-nil}
use jecp_server.Prelude.{
  ℕ, ◌+◌, ◌≡◌, refl, sym, Bool, true, ◌&&◌, not, none, some, List, [], ◌∷◌, ◌++◌, Text, codes,
  text_eq, length, all, ◌==◌, suc, arith, length-append,
}
use jecp_server.Routes.Sse.{
  SseParser, ParsedSseEvent, newline, carriage_return, starts_with, replace_crlf, cut, prepend,
  process_line, process_lines, feed, new, dispatch, set_field, field_of, join, unwrap_or_message,
  strip_space, is_idle,
}
use jecp_server.Routes.Sse.Chunks.{
  with_buf, drain, process_lines-cut, process_lines-fuel, process_line-with_buf, all-append,
}

-- The written form: a line for the name, a line for each line of the data, an empty line.
abbrev pub print_data : List Text → Text
print_data [] = newline ∷ []
print_data (l ∷ ls) = codes "data: " ++ (l ++ newline ∷ print_data ls)

abbrev pub print_event : Text → List Text → Text
print_event name lines = codes "event: " ++ (name ++ newline ∷ print_data lines)

-- No byte of the text ends a line.
abbrev pub is_inline : Text → Bool
is_inline = all (λ (c : ℕ). not (c == newline) && not (c == carriage_return))

cut_line : (l rest : Text) → is_inline l ≡ true → cut newline (l ++ newline ∷ rest) ≡ some (l, rest)
unfolding cut prepend
cut_line [] rest h = refl
cut_line (x ∷ l) rest h = ground (arith, cut_line l rest)

abbrev pub no_cr : ℕ → Bool
no_cr c = not (c == carriage_return)

replace_crlf_plain : (s : Text) → all no_cr s ≡ true → replace_crlf s ≡ s
unfolding replace_crlf
replace_crlf_plain [] h = refl
replace_crlf_plain (x ∷ s) h = ground (arith, replace_crlf_plain s)

inline_no_cr : (s : Text) → is_inline s ≡ true → all no_cr s ≡ true
inline_no_cr [] h = refl
inline_no_cr (x ∷ s) h = ground (arith, inline_no_cr s)

-- One round of the loop takes off one line.
drain_line :
    (l rest : Text) (p : SseParser)
    → is_inline l ≡ true
    → drain (with_buf (l ++ newline ∷ rest) p) ≡ drain (with_buf rest (process_line l p))
drain_line l rest p h =
    let q = with_buf (l ++ newline ∷ rest) p in
    let n = length l + length rest in
    let long = length-append l (newline ∷ rest) in
    let short : drain (with_buf rest (process_line l p))
        ≡ process_lines n (with_buf rest (process_line l p)) =
      process_lines-fuel (length rest) n (with_buf rest (process_line l p)) (omega arith)
        (omega arith) in
    rw
      (
        process_lines-fuel (length q.buf) (suc n) q (omega arith) (omega (arith, long)),
        process_lines-cut n q l rest (cut_line l rest h),
        process_line-with_buf l rest p,
        short,
      )
      refl

event_line :
    (name : Text) (p : SseParser)
    → process_line (codes "event: " ++ name) p ≡ record p { pending_event = some name }
unfolding process_line field_of cut set_field strip_space prepend starts_with text_eq
event_line name p = refl

data_line :
    (l : Text) (p : SseParser)
    → process_line (codes "data: " ++ l) p ≡ record p { pending_data = p.pending_data ++ l ∷ [] }
unfolding process_line field_of cut set_field strip_space prepend starts_with text_eq
data_line l p = refl

empty_line : (p : SseParser) → process_line [] p ≡ dispatch p
unfolding process_line
empty_line p = refl

drain_data :
    (ls : List Text) (rest : Text) (p : SseParser)
    → all is_inline ls ≡ true
    → drain (with_buf (print_data ls ++ rest) p)
      ≡ drain (with_buf rest (dispatch (record p { pending_data = p.pending_data ++ ls })))
drain_data [] rest p h =
    rw (append-nil p.pending_data, drain_line [] rest p refl, empty_line p) refl
drain_data (l ∷ ls) rest p h =
    rw
      (
        append_assoc l (newline ∷ print_data ls) rest,
        drain_line (codes "data: " ++ l) (print_data ls ++ rest) p (ground arith),
        data_line l p,
        sym (append_assoc p.pending_data (l ∷ []) ls),
      )
      (drain_data ls rest (record p { pending_data = p.pending_data ++ l ∷ [] }) (ground arith))

abbrev pub idle : List ParsedSseEvent → SseParser
idle queue = record { buf = []; pending_event = none; pending_data = []; queue = queue }

pub drain_event :
    (name : Text) (ls : List Text) (rest : Text) (queue : List ParsedSseEvent)
    → is_inline name ≡ true
    → all is_inline ls ≡ true
    → drain (with_buf (print_event name ls ++ rest) (idle queue))
      ≡ drain (with_buf rest (idle (queue ++ record { event = name; content = join ls } ∷ [])))
unfolding dispatch is_idle unwrap_or_message
drain_event name ls rest queue hn hl =
    rw
      (
        append_assoc name (newline ∷ print_data ls) rest,
        drain_line (codes "event: " ++ name) (print_data ls ++ rest) (idle queue) hn,
        event_line name (idle queue),
      )
      (drain_data ls rest (record (idle queue) { pending_event = some name }) hl)

abbrev pub is_writable : Text × List Text → Bool
is_writable (name, ls) = is_inline name && all is_inline ls

abbrev pub print_all : List (Text × List Text) → Text
print_all [] = []
print_all ((name, ls) ∷ es) = print_event name ls ++ print_all es

abbrev pub parsed : List (Text × List Text) → List ParsedSseEvent
parsed [] = []
parsed ((name, ls) ∷ es) = record { event = name; content = join ls } ∷ parsed es

drain-print_all :
    (es : List (Text × List Text)) (queue : List ParsedSseEvent)
    → all is_writable es ≡ true
    → drain (with_buf (print_all es) (idle queue)) ≡ idle (queue ++ parsed es)
unfolding process_lines
drain-print_all [] queue h = rw (append-nil queue) refl
drain-print_all ((name, ls) ∷ es) queue h =
    rw
      (
        drain_event name ls (print_all es) queue (ground arith) (ground arith),
        sym (append_assoc queue (record { event = name; content = join ls } ∷ []) (parsed es)),
      )
      (drain-print_all es (queue ++ record { event = name; content = join ls } ∷ []) (ground arith))

print_data-no_cr : (ls : List Text) → all is_inline ls ≡ true → all no_cr (print_data ls) ≡ true
print_data-no_cr [] h = refl
print_data-no_cr (l ∷ ls) h =
    all-append no_cr l (newline ∷ print_data ls) (inline_no_cr l (ground arith))
      (print_data-no_cr ls (ground arith))

print_all-no_cr :
    (es : List (Text × List Text)) → all is_writable es ≡ true → all no_cr (print_all es) ≡ true
print_all-no_cr [] h = refl
print_all-no_cr ((name, ls) ∷ es) h =
    all-append no_cr (print_event name ls) (print_all es)
      (all-append no_cr name (newline ∷ print_data ls) (inline_no_cr name (ground arith))
        (print_data-no_cr ls (ground arith)))
      (print_all-no_cr es (ground arith))

-- Events whose names and lines of data hold no line end, written one after the other as text that the
-- decoder leaves as it is, are queued by a new parser in their order, each with its lines joined,
-- and nothing is left pending or in the buffer.
pub feed-print_all :
    (from_utf8_lossy : Text → Text) (es : List (Text × List Text))
    → from_utf8_lossy (print_all es) ≡ print_all es
    → all is_writable es ≡ true
    → feed from_utf8_lossy (print_all es) new ≡ idle (parsed es)
unfolding feed new
feed-print_all from_utf8_lossy es decoded h =
    rw (decoded, replace_crlf_plain (print_all es) (print_all-no_cr es h)) (drain-print_all es [] h)
