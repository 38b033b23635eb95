-- ===== src/Agent/LoopDetector.antt =====
-- src/agent/LoopDetector.h and LoopDetector.cpp.
pub mod Patterns
pub mod Escalation
mod Tests
use embedded_agent.Base.{
  ℕ, zero, suc, ◌+◌, Bytes, Bool, true, false, List, [], ◌∷◌, ◌++◌, codes, bytes_eq, take, length,
  ltb, leb, if◌then◌else◌,
}
use embedded_agent.Core.Json.{JsonLib}
use embedded_agent.Core.Types.{ToolCall, ToolResult}

pub data LoopAction : Type 0 where
  continue warn block break : LoopAction

pub record CallRecord : Type 0 where
  pub signature : Bytes
  pub result_hash : Bytes
  pub tool_name : Bytes

-- The two deques stand with the newest element first, so that `push_back` is `∷`, `pop_front` drops
-- the last element and a loop from `rbegin` reads from the head. The thresholds are `int`s; a
-- negative one is not modelled.
pub record LoopDetector : Type 0 where
  pub exact_repeat_threshold : ℕ
  pub ping_pong_threshold : ℕ
  pub no_progress_threshold : ℕ
  pub recent_calls : List CallRecord
  pub tool_result_history : List (Bytes × Bytes)

-- A detector as it is constructed.
abbrev pub default_detector : LoopDetector
default_detector = record {
  exact_repeat_threshold = 3;
  ping_pong_threshold = 4;
  no_progress_threshold = 5;
  recent_calls = [];
  tool_result_history = [];
}

unfoldable pub call_signature : (L : JsonLib) → ToolCall L.Json → Bytes
call_signature L call = call.name ++ codes ":" ++ L.dump call.arguments

unfoldable pub result_signature : ToolResult → Bytes
result_signature result =
    (if result.is_error then codes "E" else codes "O") ++ take 64 result.output

-- The loop of `is_exact_repeat`, from `count` on.
unfoldable pub count_repeats : Bytes → List CallRecord → ℕ → ℕ
count_repeats sig [] count = count
count_repeats sig (it ∷ its) count =
    let more = count_repeats sig its (suc count) in
    if bytes_eq it.signature sig then more else count

-- With a threshold of 0, `static_cast<size_t>(0 - 1)` is larger than any size.
unfoldable pub is_exact_repeat : (L : JsonLib) → LoopDetector → ToolCall L.Json → Bool
unfolding count_repeats call_signature
is_exact_repeat L d call = elim d.exact_repeat_threshold [
  | zero ↦ false
  | suc m ↦
      if ltb (length d.recent_calls) m
      then false
      else leb (suc m) (count_repeats (call_signature L call) d.recent_calls 1)
]

-- The loop of `is_ping_pong`.
unfoldable pub count_alternations : Bytes → List CallRecord → ℕ → ℕ
count_alternations current [] alternations = alternations
count_alternations current (it ∷ its) alternations =
    let more = count_alternations it.tool_name its (suc alternations) in
    if bytes_eq it.tool_name current then alternations else more

unfoldable pub is_ping_pong : {J : Type 0} → LoopDetector → ToolCall J → Bool
unfolding count_alternations
is_ping_pong d call = elim d.ping_pong_threshold [
  | zero ↦ false
  | suc m ↦
      if ltb (length d.recent_calls) m
      then false
      else leb (suc m) (count_alternations call.name d.recent_calls 0)
]

-- The loop of `is_no_progress`.
unfoldable pub count_same : Bytes → Bytes → List (Bytes × Bytes) → ℕ → ℕ
count_same name res_sig [] same_count = same_count
count_same name res_sig (it ∷ its) same_count =
    let next = count_same name res_sig its same_count in
    let more = count_same name res_sig its (suc same_count) in
    if bytes_eq it.0 name then if bytes_eq it.1 res_sig then more else same_count else next

unfoldable pub is_no_progress : {J : Type 0} → LoopDetector → ToolCall J → ToolResult → Bool
unfolding count_same result_signature
is_no_progress d call result =
    leb d.no_progress_threshold
      (count_same call.name (result_signature result) d.tool_result_history 0 + 1)

unfoldable pub record_call :
    (L : JsonLib) → LoopDetector → ToolCall L.Json → ToolResult → LoopDetector
unfolding call_signature result_signature
record_call L d call result = record d {
  recent_calls = take 20 (
      record {
        signature = call_signature L call;
        result_hash = result_signature result;
        tool_name = call.name;
      }
      ∷ d.recent_calls);
  tool_result_history = take 50 ((call.name, result_signature result) ∷ d.tool_result_history);
}

-- `check`: the patterns are read off the history before the call is added to it.
unfoldable pub check :
    (L : JsonLib) → LoopDetector → ToolCall L.Json → ToolResult → LoopAction × LoopDetector
unfolding is_exact_repeat is_ping_pong is_no_progress record_call
check L d call result = (
  if is_no_progress d call result
      then LoopAction.break
      else if is_exact_repeat L d call
      then LoopAction.block
      else if is_ping_pong d call
      then LoopAction.warn
      else LoopAction.continue,
  record_call L d call result,
)

unfoldable pub reset : LoopDetector → LoopDetector
reset d = record d { recent_calls = []; tool_result_history = [] }
