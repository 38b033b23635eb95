-- ===== src/Net/SseParser/Tests.antt =====
-- Runs of the parser, and its theorems at concrete streams.
use embedded_agent.Base.{◌≡◌, refl, [], ◌∷◌, ◌++◌, codes, none, find, find_byte, bytes_eq}
use embedded_agent.Core.StringUtil.{split, starts_with}
use embedded_agent.Net.SseParser.{SseEvent, blank_line, deliver, feed, feed_all, parse_event}
use embedded_agent.Net.SseParser.Chunks.{feed_all-flatten, feed_exhausts, flatten}

abbrev hello : SseEvent
hello = record { event = []; text = codes "hi"; id = [] }

feed_run : feed (codes "da") (codes "ta: hi\n\n: x") ≡ (hello ∷ [], codes ": x")
unfolding feed find find_byte split starts_with bytes_eq deliver parse_event
feed_run = refl

feed_all-flatten_example :
    feed_all [] (codes "data: h" ∷ codes "i\n" ∷ codes "\n" ∷ [])
    ≡ feed [] (codes "data: h" ++ flatten (codes "i\n" ∷ codes "\n" ∷ []))
feed_all-flatten_example = feed_all-flatten [] (codes "data: h") (codes "i\n" ∷ codes "\n" ∷ [])

feed_exhausts_example : find blank_line (feed [] (codes "data: a\n\ndata")).1 ≡ none
feed_exhausts_example = feed_exhausts [] (codes "data: a\n\ndata")
