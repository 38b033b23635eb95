-- ===== src/Net/SseParser/Fields.antt =====
-- What `parse_event` reads from the lines of an event.
use embedded_agent.Base.{
  ℕ, ◌≡◌, refl, ap, ◌∙◌, Bytes, List, [], ◌∷◌, ◌++◌, map, codes, bytes_eq, find_byte, append_assoc,
  arith, All, Lacks, All-append, ◌≢◌,
}
use embedded_agent.Core.StringUtil.{starts_with}
use embedded_agent.Core.StringUtil.Split.{join, split-join}
use embedded_agent.Net.SseParser.{
  SseEvent, newline, read_line, read_lines, parse_event, empty_event,
}

-- The lines that a server writes for an event.
abbrev pub data_line : Bytes → Bytes
data_line d = codes "data: " ++ d

abbrev pub event_lines : Bytes → Bytes → List Bytes → List Bytes
event_lines name id ds = (codes "event: " ++ name) ∷ (codes "id: " ++ id) ∷ map data_line ds

join-append_data :
    (t l : Bytes) (rest : List Bytes)
    → join newline ((t ++ newline ∷ l) ∷ rest) ≡ join newline (t ∷ l ∷ rest)
join-append_data t l [] = refl
join-append_data t l (q ∷ r) = append_assoc t (newline ∷ l) (newline ∷ join newline (q ∷ r))

read_line-data :
    (e : SseEvent) (c : ℕ) (t l : Bytes)
    → read_line (record e { text = c ∷ t }) (data_line l)
      ≡ record e { text = (c ∷ t) ++ newline ∷ l }
unfolding read_line starts_with find_byte bytes_eq
read_line-data e c t l = refl

-- Behind a first line that is not empty, each data line is one more line of the text.
read_lines-data :
    (e : SseEvent) (c : ℕ) (t : Bytes) (rest : List Bytes)
    → read_lines (record e { text = c ∷ t }) (map data_line rest)
      ≡ record e { text = join newline ((c ∷ t) ∷ rest) }
unfolding read_lines
read_lines-data e c t [] = refl
read_lines-data e c t (l ∷ rest) =
    ap (λ x. read_lines x (map data_line rest)) (read_line-data e c t l)
    ∙ read_lines-data e c (t ++ newline ∷ l) rest
    ∙ ap (λ x. record e { text = x }) (join-append_data (c ∷ t) l rest)

read_lines-event_lines :
    (name id t : Bytes) (c : ℕ) (rest : List Bytes)
    → read_lines empty_event (event_lines name id ((c ∷ t) ∷ rest))
      ≡ read_lines (record { event = name; text = c ∷ t; id = id }) (map data_line rest)
unfolding read_lines starts_with find_byte bytes_eq
read_lines-event_lines name id t c rest = refl

data_lines-Lacks :
    (ds : List Bytes) → All (Lacks newline) ds → All (Lacks newline) (map data_line ds)
data_lines-Lacks [] h = tt
data_lines-Lacks (d ∷ ds) h =
    (All-append (λ c. c ≢ newline) (codes "data: ") d (omega arith) h.0, data_lines-Lacks ds h.1)

event_lines-Lacks :
    (name id : Bytes) (ds : List Bytes)
    → Lacks newline name
    → Lacks newline id
    → All (Lacks newline) ds
    → All (Lacks newline) (event_lines name id ds)
event_lines-Lacks name id ds hn hi hd = (
  All-append (λ c. c ≢ newline) (codes "event: ") name (omega arith) hn,
  (All-append (λ c. c ≢ newline) (codes "id: ") id (omega arith) hi, data_lines-Lacks ds hd),
)

-- The text of an event that a server writes as one `event:`, one `id:` and some `data:` lines is
-- parsed to that event, with the data lines joined by newlines. No value holds a newline, and the
-- first data line is not empty.
pub parse_event_lines :
    (name id t : Bytes) (c : ℕ) (rest : List Bytes)
    → Lacks newline name
    → Lacks newline id
    → All (Lacks newline) ((c ∷ t) ∷ rest)
    → parse_event (join newline (event_lines name id ((c ∷ t) ∷ rest)))
      ≡ record { event = name; text = join newline ((c ∷ t) ∷ rest); id = id }
unfolding parse_event
parse_event_lines name id t c rest hn hi hd =
    ap (read_lines empty_event) (
      split-join (event_lines name id ((c ∷ t) ∷ rest)) newline (λ e. cc)
        (event_lines-Lacks name id ((c ∷ t) ∷ rest) hn hi hd))
    ∙ read_lines-event_lines name id t c rest
    ∙ read_lines-data (record { event = name; text = c ∷ t; id = id }) c t rest
