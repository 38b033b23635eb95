-- ===== src/Net/SseParser/Chunks.antt =====
-- The events do not depend on how the stream was cut into chunks.
use embedded_agent.Base.{
  ℕ, zero, suc, ◌+◌, ◌<◌, ◌≡◌, refl, ap, sym, ap₂, ◌∙◌, inl, inr, Bytes, none, some, List, [], ◌∷◌,
  ◌++◌, length, take, drop, find, arith, Option-cases, length-drop, take-append, drop-append,
  find-le, find-append, append_assoc, append-nil,
}
use embedded_agent.Net.SseParser.{
  SseEvent, blank_line, parse_event, deliver, drain, drain_all, feed, feed_all,
}

drop-lt :
    (fuel : ℕ) (b : Bytes) (pos : ℕ)
    → length b < suc fuel
    → find blank_line b ≡ some pos
    → length (drop (pos + 2) b) < fuel
drop-lt fuel b pos h e = omega (arith, length-drop (pos + 2) b, find-le blank_line b pos e)

-- Any fuel above the length gives the same result.
drain_fuel : (f g : ℕ) (b : Bytes) → length b < f → length b < g → drain f b ≡ drain g b
unfolding drain
drain_fuel zero g b h k = absurd (omega arith)
drain_fuel (suc f) zero b h k = absurd (omega arith)
drain_fuel (suc f) (suc g) b h k = elim (Option-cases (find blank_line b)) [
  | inl e ↦ rw (e, drain)
  | inr (pos, e) ↦
      rw (e, drain)
        (ap (λ (r : List SseEvent × Bytes). (deliver (parse_event (take pos b)) ++ r.0, r.1))
          (drain_fuel f g (drop (pos + 2) b) (drop-lt f b pos h e) (drop-lt g b pos k e)))
]

abbrev before : Bytes → List SseEvent × Bytes → List SseEvent × Bytes
before text r = (deliver (parse_event text) ++ r.0, r.1)

-- The loop of `feed` without the fuel.
drain-none : (b : Bytes) → find blank_line b ≡ none → drain_all b ≡ ([], b)
unfolding drain_all
drain-none b e = rw (e, drain)

drain-some :
    (b : Bytes) (pos : ℕ)
    → find blank_line b ≡ some pos
    → drain_all b ≡ before (take pos b) (drain_all (drop (pos + 2) b))
unfolding drain_all
drain-some b pos e =
    rw (e, drain)
      (ap (before (take pos b)) (
        drain_fuel (length b) (suc (length (drop (pos + 2) b))) (drop (pos + 2) b)
          (drop-lt (length b) b pos (omega arith) e) (omega arith)))

abbrev then_drain : List SseEvent × Bytes → Bytes → List SseEvent × Bytes
then_drain r c = (r.0 ++ (drain_all (r.1 ++ c)).0, (drain_all (r.1 ++ c)).1)

then_drain-before :
    (t : Bytes) (r : List SseEvent × Bytes) (c : Bytes)
    → then_drain (before t r) c ≡ before t (then_drain r c)
then_drain-before t r c =
    ap (λ es. (es, (drain_all (r.1 ++ c)).1)) (append_assoc (deliver (parse_event t)) r.0 _)

-- Draining a longer buffer is draining the part that was there, then the rest with what arrived.
drain-append :
    (fuel : ℕ) (b c : Bytes) → length b < fuel → drain_all (b ++ c) ≡ then_drain (drain_all b) c
drain-append zero b c h = absurd (omega arith)
drain-append (suc fuel) b c h = elim (Option-cases (find blank_line b)) [
  | inl e ↦ rw (drain-none b e) refl
  | inr (pos, e) ↦
      let rest = drop (pos + 2) b in
      let fits = find-le blank_line b pos e in
      drain-some (b ++ c) pos (find-append blank_line b c pos e)
      ∙ ap₂ (λ t r. before t (drain_all r)) (take-append pos b c (omega arith))
          (drop-append (pos + 2) b c (omega arith))
      ∙ ap (before (take pos b)) (drain-append fuel rest c (drop-lt fuel b pos h e))
      ∙ sym (then_drain-before (take pos b) (drain_all rest) c)
      ∙ ap (λ r. then_drain r c) (sym (drain-some b pos e))
]

drain_rest-none : (fuel : ℕ) (b : Bytes) → length b < fuel → find blank_line (drain_all b).1 ≡ none
drain_rest-none zero b h = absurd (omega arith)
drain_rest-none (suc fuel) b h = elim (Option-cases (find blank_line b)) [
  | inl e ↦ rw (drain-none b e) e
  | inr (pos, e) ↦
      rw (drain-some b pos e) (drain_rest-none fuel (drop (pos + 2) b) (drop-lt fuel b pos h e))
]

abbrev pub flatten : List Bytes → Bytes
flatten [] = []
flatten (c ∷ cs) = c ++ flatten cs

feed-append :
    (b x y : Bytes)
    → feed b (x ++ y) ≡ ((feed b x).0 ++ (feed (feed b x).1 y).0, (feed (feed b x).1 y).1)
feed-append b x y =
    unfold feed in
    ap drain_all (sym (append_assoc b x y))
    ∙ drain-append (suc (length (b ++ x))) (b ++ x) y (omega arith)

feed_one : (b x : Bytes) → feed_all b (x ∷ []) ≡ feed b x
unfolding feed_all
feed_one b x = ap (λ es. (es, (feed b x).1)) (append-nil (feed b x).0)

-- Feeding a stream in chunks, whatever the cuts, delivers the events of feeding it at once, in the
-- same order, and leaves the same text in the buffer.
pub feed_all-flatten :
    (buffer chunk : Bytes) (chunks : List Bytes)
    → feed_all buffer (chunk ∷ chunks) ≡ feed buffer (chunk ++ flatten chunks)
unfolding feed_all
feed_all-flatten buffer chunk [] = feed_one buffer chunk ∙ ap (feed buffer) (sym (append-nil chunk))
feed_all-flatten buffer chunk (c ∷ cs) =
    ap (λ (r : List SseEvent × Bytes). ((feed buffer chunk).0 ++ r.0, r.1))
      (feed_all-flatten (feed buffer chunk).1 c cs)
    ∙ sym (feed-append buffer chunk (c ++ flatten cs))

-- After any call, no complete event is left waiting in the buffer.
pub feed_exhausts : (buffer chunk : Bytes) → find blank_line (feed buffer chunk).1 ≡ none
feed_exhausts buffer chunk =
    unfold feed in drain_rest-none (suc (length (buffer ++ chunk))) (buffer ++ chunk) (omega arith)
