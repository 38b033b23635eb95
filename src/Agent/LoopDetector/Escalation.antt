-- ===== src/Agent/LoopDetector/Escalation.antt =====
-- What the loop detector answers to a call that is made again and again.
use embedded_agent.Base.{
  ℕ, zero, suc, ◌+◌, ◌≡◌, refl, min, Bytes, List, [], ◌∷◌, arith, All, take, length, length-take,
  bytes_eq_iff, ltb, if◌then◌else◌,
}
use embedded_agent.Core.Json.{JsonLib}
use embedded_agent.Core.Types.{ToolCall, ToolResult}
use embedded_agent.Agent.LoopDetector.{
  LoopDetector, CallRecord, LoopAction, default_detector, check, record_call, is_exact_repeat,
  is_ping_pong, is_no_progress, count_repeats, count_alternations, count_same, call_signature,
  result_signature,
}

count_repeats-All :
    (sig : Bytes) (its : List CallRecord) (count : ℕ)
    → All (λ it. it.signature ≡ sig) its
    → count_repeats sig its count ≡ count + length its
unfolding count_repeats
count_repeats-All sig [] count h = omega arith
count_repeats-All sig (it ∷ its) count h =
    ground (arith, bytes_eq_iff it.signature sig, count_repeats-All sig its (suc count))

count_same-All :
    (name sig : Bytes) (its : List (Bytes × Bytes)) (n : ℕ)
    → All (λ r. (r.0 ≡ name) × (r.1 ≡ sig)) its
    → count_same name sig its n ≡ n + length its
unfolding count_same
count_same-All name sig [] n h = omega arith
count_same-All name sig (it ∷ its) n h =
    ground
      (arith, bytes_eq_iff it.0 name, bytes_eq_iff it.1 sig, count_same-All name sig its (suc n))

count_alternations-All :
    (name : Bytes) (its : List CallRecord)
    → All (λ it. it.tool_name ≡ name) its
    → count_alternations name its 0 ≡ 0
unfolding count_alternations
count_alternations-All name [] h = refl
count_alternations-All name (it ∷ its) h = ground (arith, bytes_eq_iff it.tool_name name)

All-take {ℓ κ} : {A : Type ℓ} (P : A → Type κ) (n : ℕ) (xs : List A) → All P xs → All P (take n xs)
All-take P zero xs h = tt
All-take P (suc n) [] h = tt
All-take P (suc n) (x ∷ xs) h = (h.0, All-take P n xs h.1)

-- A new detector after `n` checks of one call with one result.
abbrev pub after : (L : JsonLib) → ToolCall L.Json → ToolResult → ℕ → LoopDetector
after L call result zero = default_detector
after L call result (suc n) = (check L (after L call result n) call result).1

-- The state after `n` such checks.
abbrev Repeated : (L : JsonLib) → ToolCall L.Json → ToolResult → ℕ → LoopDetector → Type 0
Repeated L call result n d =
    (d.exact_repeat_threshold ≡ 3)
    × (d.ping_pong_threshold ≡ 4)
    × (d.no_progress_threshold ≡ 5)
    × (length d.recent_calls ≡ min 20 n)
    × (length d.tool_result_history ≡ min 50 n)
    × All (λ it. it.signature ≡ call_signature L call) d.recent_calls
    × All (λ it. it.tool_name ≡ call.name) d.recent_calls
    × All (λ r. (r.0 ≡ call.name) × (r.1 ≡ result_signature result)) d.tool_result_history

record_call-Repeated :
    (L : JsonLib) (call : ToolCall L.Json) (result : ToolResult) (n : ℕ) (d : LoopDetector)
    → Repeated L call result n d
    → Repeated L call result (suc n) (record_call L d call result)
unfolding record_call
record_call-Repeated L call result n d (a, b, c, p, q, x, y, z) = (
  a,
  b,
  c,
  omega (arith, p, length-take 20 (this ∷ d.recent_calls)),
  omega (arith, q, length-take 50 (pair ∷ d.tool_result_history)),
  All-take (λ it. it.signature ≡ call_signature L call) 20 (this ∷ d.recent_calls) (refl, x),
  All-take (λ it. it.tool_name ≡ call.name) 20 (this ∷ d.recent_calls) (refl, y),
  All-take (λ r. (r.0 ≡ call.name) × (r.1 ≡ result_signature result)) 50
      (pair ∷ d.tool_result_history) ((refl, refl), z),
)
  where
    this : CallRecord
    this = record {
      signature = call_signature L call;
      result_hash = result_signature result;
      tool_name = call.name;
    }

    pair : Bytes × Bytes
    pair = (call.name, result_signature result)

after-Repeated :
    (L : JsonLib) (call : ToolCall L.Json) (result : ToolResult) (n : ℕ)
    → Repeated L call result n (after L call result n)
unfolding check
after-Repeated L call result zero = ground arith
after-Repeated L call result (suc n) =
    record_call-Repeated L call result n (after L call result n) (after-Repeated L call result n)

-- A new detector that is asked about the same call, with the same result, again and again lets the
-- first two pass, blocks the third and the fourth, and breaks from the fifth on, however long this
-- goes on.
pub check_escalates :
    (L : JsonLib) (call : ToolCall L.Json) (result : ToolResult) (n : ℕ)
    → (check L (after L call result n) call result).0 ≡ (
        if ltb n 2
        then LoopAction.continue
        else if ltb n 4
        then LoopAction.block
        else LoopAction.break)
unfolding check is_exact_repeat is_ping_pong is_no_progress
check_escalates L call result n =
    let (a, b, c, p, q, x, y, z) = after-Repeated L call result n in
    ground (
      arith,
      count_repeats-All (call_signature L call) (after L call result n).recent_calls 1 x,
      count_alternations-All call.name (after L call result n).recent_calls y,
      count_same-All call.name (result_signature result) (after L call result n).tool_result_history
          0 z,
    )
