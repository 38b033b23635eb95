-- ===== src/Agent/LoopDetector/Patterns.antt =====
-- What the three patterns of the loop detector recognise.
use embedded_agent.Base.{
  ℕ, zero, suc, ◌+◌, ◌≤◌, ◌≡◌, ◌≢◌, ◌↔◌, Bytes, true, List, [], ◌∷◌, arith, All, take, map, length,
  bytes_eq, bytes_eq_iff, keep,
}
use embedded_agent.Core.Json.{JsonLib}
use embedded_agent.Core.Types.{ToolCall, ToolResult}
use embedded_agent.Agent.LoopDetector.{
  LoopDetector, CallRecord, is_exact_repeat, is_ping_pong, is_no_progress, count_repeats,
  count_alternations, count_same, call_signature, result_signature,
}

-- The newest `m` elements all satisfy `P`, and there are that many.
abbrev pub Newest {ℓ} : {A : Type ℓ} → (A → Type 0) → ℕ → List A → Type 0
Newest P m xs = (m ≤ length xs) × All P (take m xs)

-- The results that the history has of one tool, newest first.
abbrev pub results_of : Bytes → List (Bytes × Bytes) → List Bytes
results_of name h = map (λ r. r.1) (keep (λ r. bytes_eq r.0 name) h)

-- Each of the newest `m` calls is of another tool than the call that came after it, where the call
-- after the newest one is of the tool `current`.
abbrev pub Alternates : Bytes → ℕ → List CallRecord → Type 0
Alternates current zero its = Unit
Alternates current (suc m) [] = ⊥
Alternates current (suc m) (it ∷ its) = (it.tool_name ≢ current) × Alternates it.tool_name m its

count_repeats-le :
    (sig : Bytes) (its : List CallRecord) (count : ℕ) → count ≤ count_repeats sig its count
unfolding count_repeats
count_repeats-le sig [] count = omega arith
count_repeats-le sig (it ∷ its) count = ground (arith, count_repeats-le sig its (suc count))

count_repeats_lem :
    (sig : Bytes) (its : List CallRecord) (count m : ℕ)
    → (m + count ≤ count_repeats sig its count) ↔ Newest (λ it. it.signature ≡ sig) m its
unfolding count_repeats
count_repeats_lem sig its count zero = ground (arith, count_repeats-le sig its count)
count_repeats_lem sig [] count (suc m) = ground arith
count_repeats_lem sig (it ∷ its) count (suc m) =
    ground (arith, bytes_eq_iff it.signature sig, count_repeats_lem sig its (suc count) m)

count_alternations-le :
    (current : Bytes) (its : List CallRecord) (n : ℕ) → n ≤ count_alternations current its n
unfolding count_alternations
count_alternations-le current [] n = omega arith
count_alternations-le current (it ∷ its) n =
    ground (arith, count_alternations-le it.tool_name its (suc n))

count_alternations_lem :
    (current : Bytes) (its : List CallRecord) (n m : ℕ)
    → (m + n ≤ count_alternations current its n) ↔ Alternates current m its
unfolding count_alternations
count_alternations_lem current its n zero = ground (arith, count_alternations-le current its n)
count_alternations_lem current [] n (suc m) = ground arith
count_alternations_lem current (it ∷ its) n (suc m) =
    ground
      (arith, bytes_eq_iff it.tool_name current, count_alternations_lem it.tool_name its (suc n) m)

count_same-le :
    (name sig : Bytes) (its : List (Bytes × Bytes)) (n : ℕ) → n ≤ count_same name sig its n
unfolding count_same
count_same-le name sig [] n = omega arith
count_same-le name sig (it ∷ its) n =
    ground (arith, count_same-le name sig its n, count_same-le name sig its (suc n))

count_same_lem :
    (name sig : Bytes) (its : List (Bytes × Bytes)) (n m : ℕ)
    → (m + n ≤ count_same name sig its n) ↔ Newest (λ r. r ≡ sig) m (results_of name its)
unfolding count_same
count_same_lem name sig its n zero = ground (arith, count_same-le name sig its n)
count_same_lem name sig [] n (suc m) = ground arith
count_same_lem name sig (it ∷ its) n (suc m) = ground (
  arith,
  bytes_eq_iff it.0 name,
  bytes_eq_iff it.1 sig,
  count_same_lem name sig its (suc n) m,
  count_same_lem name sig its n (suc m),
)

Alternates-length :
    (current : Bytes) (m : ℕ) (its : List CallRecord) → Alternates current m its → m ≤ length its
Alternates-length current zero its h = omega arith
Alternates-length current (suc m) [] h = absurd h
Alternates-length current (suc m) (it ∷ its) h =
    omega (arith, Alternates-length it.tool_name m its h.1)

-- With thresholds of `suc a` calls, `suc b` changes of tool and `suc c` results: a call is an exact
-- repeat if the newest `a` recorded calls have its signature; a ping-pong if the newest `suc b`
-- recorded calls, and this one, were each of another tool than the call before; and no progress if
-- the newest `c` recorded results of its tool have the signature of its result.
pub patterns_iff :
    (L : JsonLib) (d : LoopDetector) (call : ToolCall L.Json) (result : ToolResult) (a b c : ℕ)
    → d.exact_repeat_threshold ≡ suc a
    → d.ping_pong_threshold ≡ suc b
    → d.no_progress_threshold ≡ suc c
    → ((is_exact_repeat L d call ≡ true)
        ↔ Newest (λ it. it.signature ≡ call_signature L call) a d.recent_calls)
      × ((is_ping_pong d call ≡ true) ↔ Alternates call.name (suc b) d.recent_calls)
      × ((is_no_progress d call result ≡ true)
          ↔ Newest
              (λ r. r ≡ result_signature result)
              c
              (results_of call.name d.tool_result_history))
unfolding is_exact_repeat is_ping_pong is_no_progress
patterns_iff L d call result a b c ha hb hc = (
  ground (arith, count_repeats_lem (call_signature L call) d.recent_calls 1 a),
  ground (
    arith,
    count_alternations_lem call.name d.recent_calls 0 (suc b),
    Alternates-length call.name (suc b) d.recent_calls,
  ),
  ground (arith, count_same_lem call.name (result_signature result) d.tool_result_history 0 c),
)
