-- ===== src/Net/SseParser.antt =====
-- src/net/SseParser.cpp: server-sent events out of a byte stream that arrives in chunks.
pub mod Fields
pub mod Chunks
mod Tests
use embedded_agent.Base.{
  ℕ, zero, suc, ◌+◌, Bytes, Bool, not, ◌||◌, none, some, List, [], ◌∷◌, ◌++◌, length, take, drop,
  is_empty, codes, bytes_eq, find, find_byte, ◌==◌, if◌then◌else◌,
}
use embedded_agent.Core.StringUtil.{split, starts_with}

pub record SseEvent : Type 0 where
  pub event : Bytes
  pub text : Bytes
  pub id : Bytes

abbrev pub newline : ℕ
newline = 10

abbrev pub colon : ℕ
colon = b':'

-- "\n\n"
abbrev pub blank_line : Bytes
blank_line = newline ∷ newline ∷ []

abbrev pub empty_event : SseEvent
empty_event = record { event = []; text = []; id = [] }

-- `if (!value.empty() && value[0] == ' ') value = value.substr(1);`
pub strip_space : Bytes → Bytes
strip_space [] = []
strip_space (c ∷ s) = if c == b' ' then s else c ∷ s

-- `if (!current_data.empty()) current_data += "\n"; current_data += value;`
pub append_data : Bytes → Bytes → Bytes
append_data [] value = value
append_data (c ∷ s) value = (c ∷ s) ++ newline ∷ value

-- What a field does to the event. `text` stands for the source's `current_data` until the end.
pub set_field : SseEvent → Bytes → Bytes → SseEvent
unfolding append_data
set_field e field value =
    if bytes_eq field (codes "event")
    then record e { event = value }
    else if bytes_eq field (codes "data")
    then record e { text = append_data e.text value }
    else if bytes_eq field (codes "id")
    then record e { id = value }
    else e

-- One line of an event: comments and lines without a colon are skipped.
pub read_line : SseEvent → Bytes → SseEvent
unfolding set_field strip_space
read_line e line = if starts_with line (colon ∷ []) then e else elim (find_byte colon line) [
  | none ↦ e
  | some pos ↦ set_field e (take pos line) (strip_space (drop (suc pos) line))
]

read_lines : SseEvent → List Bytes → SseEvent
unfolding read_line
read_lines e [] = e
read_lines e (line ∷ rest) = read_lines (read_line e line) rest

pub parse_event : Bytes → SseEvent
unfolding read_lines
parse_event event_text = read_lines empty_event (split event_text newline)

-- `on_event` is called unless both the data and the event name are empty.
pub deliver : SseEvent → List SseEvent
deliver e = if not (is_empty e.text) || not (is_empty e.event) then e ∷ [] else []

-- The loop of `feed`. The calls of `on_event`, in order, come back with the rest of the buffer.
-- A round takes two bytes at least, so `length buffer + 1` rounds are enough.
drain : ℕ → Bytes → List SseEvent × Bytes
drain zero buffer = ([], buffer)
drain (suc fuel) buffer = elim (find blank_line buffer) [
  | none ↦ ([], buffer)
  | some pos ↦
      let rest = drain fuel (drop (pos + 2) buffer) in
      (deliver (parse_event (take pos buffer)) ++ rest.0, rest.1)
]

pub drain_all : Bytes → List SseEvent × Bytes
unfolding drain
drain_all buffer = drain (suc (length buffer)) buffer

-- `feed(chunk)`: the parser's state is `buffer_`.
unfoldable pub feed : Bytes → Bytes → List SseEvent × Bytes
unfolding drain_all
feed buffer chunk = drain_all (buffer ++ chunk)

-- A sequence of calls of `feed`.
unfoldable pub feed_all : Bytes → List Bytes → List SseEvent × Bytes
feed_all buffer [] = ([], buffer)
feed_all buffer (chunk ∷ chunks) =
    let first = feed buffer chunk in
    let rest = feed_all first.1 chunks in (first.0 ++ rest.0, rest.1)
