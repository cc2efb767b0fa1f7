-- ===== src/Routes/Sse.antt =====
-- src/routes/invoke.rs: the parser of the provider's event stream, and the meter that adds up its readings.
-- `String::from_utf8_lossy` is a parameter. A text is its bytes.
pub mod Chunks
pub mod RoundTrip
mod Tests
use jecp_server.Prelude.{
  ℕ, ◌+◌, Bool, true, false, ◌||◌, Option, none, some, List, [], ◌∷◌, ◌++◌, Text, codes, text_eq,
  length, ◌==◌, zero, suc, if◌then◌else◌,
}

pub record ParsedSseEvent : Type 0 where
  pub event : Text
  pub content : Text

pub record SseParser : Type 0 where
  pub buf : Text
  pub pending_event : Option Text
  pub pending_data : List Text
  pub queue : List ParsedSseEvent

unfoldable pub new : SseParser
new = record { buf = []; pending_event = none; pending_data = []; queue = [] }

abbrev pub newline : ℕ
newline = 10

abbrev pub carriage_return : ℕ
carriage_return = 13

abbrev pub colon : ℕ
colon = 58

abbrev pub space : ℕ
space = 32

-- `starts_with(c)`.
unfoldable pub starts_with : ℕ → Text → Bool
starts_with c [] = false
starts_with c (x ∷ xs) = x == c

-- `replace("\r\n", "\n")`.
unfoldable pub replace_crlf : Text → Text
unfolding starts_with
replace_crlf [] = []
replace_crlf (c ∷ cs) =
    let rest = replace_crlf cs in
    elim (c == carriage_return) [
      | true ↦ if starts_with newline cs then rest else c ∷ rest
      | false ↦ c ∷ rest
    ]

-- `find(c)`, as the text before the first `c` and the text after it.
pub prepend : ℕ → Option (Text × Text) → Option (Text × Text)
prepend x none = none
prepend x (some (before, after)) = some (x ∷ before, after)

unfoldable pub cut : ℕ → Text → Option (Text × Text)
unfolding prepend
cut c [] = none
cut c (x ∷ xs) = let later = cut c xs in if x == c then some ([], xs) else prepend x later

-- `join("\n")`.
unfoldable pub join : List Text → Text
join [] = []
join (l ∷ []) = l
join (l ∷ k ∷ ls) = l ++ newline ∷ join (k ∷ ls)

unfoldable pub unwrap_or_message : Option Text → Text
unwrap_or_message none = codes "message"
unwrap_or_message (some e) = e

unfoldable pub is_idle : Option Text → List Text → Bool
is_idle none [] = true
is_idle none (l ∷ ls) = false
is_idle (some e) ls = false

unfoldable pub dispatch : SseParser → SseParser
unfolding is_idle join unwrap_or_message
dispatch p = if is_idle p.pending_event p.pending_data then p else record p {
  pending_event = none;
  pending_data = [];
  queue =
      p.queue
      ++ record { event = unwrap_or_message p.pending_event; content = join p.pending_data } ∷ [];
}

unfoldable pub strip_space : Text → Text
strip_space [] = []
strip_space (c ∷ cs) = if c == space then cs else c ∷ cs

-- The field's name and its value.
unfoldable pub field_of : Text → Text × Text
unfolding cut strip_space
field_of line = elim (cut colon line) [
  | none ↦ (line, [])
  | some (name, value) ↦ (name, strip_space value)
]

unfoldable pub set_field : Text → Text → SseParser → SseParser
set_field name value p =
    if text_eq name (codes "event")
    then record p { pending_event = some value }
    else if text_eq name (codes "data")
    then record p { pending_data = p.pending_data ++ value ∷ [] }
    else p

unfoldable pub process_line : Text → SseParser → SseParser
unfolding dispatch starts_with field_of set_field
process_line [] p = dispatch p
process_line (c ∷ cs) p =
    if starts_with colon (c ∷ cs)
    then p
    else set_field (field_of (c ∷ cs)).0 (field_of (c ∷ cs)).1 p

-- The loop over the whole lines of the buffer; each round takes one byte of it at least.
unfoldable pub process_lines : ℕ → SseParser → SseParser
unfolding cut process_line
process_lines zero p = p
process_lines (suc fuel) p = elim (cut newline p.buf) [
  | none ↦ p
  | some (line, rest) ↦ process_lines fuel (process_line line (record p { buf = rest }))
]

module _ (from_utf8_lossy : Text → Text) where
  unfoldable pub feed : Text → SseParser → SseParser
  unfolding replace_crlf process_lines
  feed bytes p =
      let buf = p.buf ++ replace_crlf (from_utf8_lossy bytes) in
      process_lines (length buf) (record p { buf = buf })

unfoldable pub pop : SseParser → Option ParsedSseEvent × SseParser
pop p = elim p.queue [ [] ↦ (none, p) | (e ∷ rest) ↦ (some e, record p { queue = rest }) ]
