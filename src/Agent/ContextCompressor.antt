-- ===== src/Agent/ContextCompressor.antt =====
-- src/agent/ContextCompressor.cpp: when a history is compressed, and where it is cut; the children
-- have the compression. The budgets that `recompute_budgets` computes with doubles are fields that
-- are given.
pub mod Prune
pub mod Pruned
pub mod Summary
pub mod Compress
pub mod Shape
pub mod Tail
mod Tests
use embedded_agent.Base.{
  ℕ, zero, suc, ◌+◌, ◌-◌, ◌*◌, ◌/◌, ◌==◌, min, max, Bytes, Bool, true, false, not, ◌&&◌, ◌||◌,
  Option, none, some, List, [], ◌∷◌, length, drop, ltb, leb, is_empty, if◌then◌else◌,
}
use embedded_agent.Core.Json.{JsonLib}
use embedded_agent.Core.Types.{Message, Role, ToolCall}

-- `last_savings_pct_`: a percentage, cut towards 0, that may be negative.
pub data Savings : Type 0 where
  gained lost : ℕ → Savings

-- The part of the configuration and of the state that the modelled methods read.
pub record ContextCompressor : Type 0 where
  pub enable : Bool
  pub in_place : Bool
  pub protect_first_n : ℕ
  pub protect_last_n : ℕ
  pub threshold_tokens : ℕ
  pub tail_token_budget : ℕ
  pub last_prompt_tokens : ℕ
  pub compression_count : ℕ
  pub ineffective_count : ℕ
  pub previous_summary : Bytes
  pub abort_on_summary_failure : Bool
  pub last_savings : Savings
  pub last_compressed : Bool

unfoldable pub weighted_chars : Bytes → ℕ
weighted_chars [] = 0
weighted_chars (c ∷ s) = (if leb 192 c then 2 else 1) + weighted_chars s

-- `(x + 3) / 4`
abbrev pub quarter : ℕ → ℕ
quarter x = (x + 3) / 4

abbrev pub option_tokens : Option Bytes → ℕ
option_tokens none = 0
option_tokens (some text) = quarter (length text)

-- The loop over the tool calls. `arguments.size()` is the number of the JSON value's elements.
unfoldable pub calls_tokens : (L : JsonLib) → List (ToolCall L.Json) → ℕ
calls_tokens L [] = 0
calls_tokens L (tc ∷ calls) =
    quarter (length tc.name) + quarter (L.size tc.arguments) + calls_tokens L calls

abbrev pub tool_calls_tokens : (L : JsonLib) → Option (List (ToolCall L.Json)) → ℕ
tool_calls_tokens L none = 0
tool_calls_tokens L (some calls) = calls_tokens L calls

-- With no content, no name, no tool calls and no id all the terms are 0, as the early return is.
unfoldable pub estimate_message : (L : JsonLib) → Message L.Json → ℕ
unfolding weighted_chars calls_tokens
estimate_message L msg =
    quarter (weighted_chars msg.content)
    + option_tokens msg.name
    + tool_calls_tokens L msg.tool_calls
    + option_tokens msg.tool_call_id

unfoldable pub estimate_tokens : (L : JsonLib) → List (Message L.Json) → ℕ
unfolding estimate_message
estimate_tokens L [] = 0
estimate_tokens L (msg ∷ messages) = estimate_message L msg + estimate_tokens L messages

unfoldable pub should_compress : (L : JsonLib) → ContextCompressor → List (Message L.Json) → Bool
unfolding estimate_tokens
should_compress L c messages =
    if not c.enable || leb 2 c.ineffective_count
    then false
    else leb c.threshold_tokens
        (if ltb 0 c.last_prompt_tokens then c.last_prompt_tokens else estimate_tokens L messages)

abbrev pub update_from_response : ContextCompressor → ℕ → ContextCompressor
update_from_response c prompt_tokens = record c { last_prompt_tokens = prompt_tokens }

abbrev pub is_system : Role → Bool
is_system Role.system = true
is_system _ = false

abbrev pub is_tool : Role → Bool
is_tool Role.tool = true
is_tool _ = false

-- The `while` loop of `protect_head_size`: how many tool messages the rest begins with.
unfoldable pub leading_tools : {J : Type 0} → List (Message J) → ℕ
leading_tools [] = 0
leading_tools (msg ∷ rest) = if is_tool msg.role then suc (leading_tools rest) else 0

-- `head` before the loop.
unfoldable pub first_head : {J : Type 0} → ContextCompressor → List (Message J) → ℕ
first_head c [] = 0
first_head c (msg ∷ rest) =
    let head = if is_system msg.role then 1 else 0 in
    if c.compression_count == 0 && is_empty c.previous_summary
    then min (head + c.protect_first_n) (suc (length rest))
    else head

unfoldable pub protect_head_size : {J : Type 0} → ContextCompressor → List (Message J) → ℕ
unfolding leading_tools first_head
protect_head_size c messages =
    let head = first_head c messages in head + leading_tools (drop head messages)

-- The first loop of `find_tail_cut` runs from the last message to the one at `head_end`: here each
-- message `i` comes after those behind it, which give `accumulated`, `cut` and whether the loop has
-- ended.
unfoldable pub soft_loop : (L : JsonLib) → ℕ → ℕ → ℕ → ℕ → List (Message L.Json) → ℕ × ℕ × Bool
unfolding estimate_message
soft_loop L soft_ceiling min_tail n i [] = (0, n, false)
soft_loop L soft_ceiling min_tail n i (msg ∷ later) =
    let (accumulated, cut, ended) = soft_loop L soft_ceiling min_tail n (suc i) later in
    let t = estimate_message L msg + 10 in
    if ended
    then (accumulated, cut, true)
    else if ltb soft_ceiling (accumulated + t) && leb min_tail (n - i)
    then (accumulated, cut, true)
    else (accumulated + t, i, false)

-- `role == Role::User || role == Role::Assistant`
abbrev pub is_spoken : {J : Type 0} → Message J → Bool
is_spoken msg = elim msg.role [
  | Role.system ↦ false
  | Role.user ↦ true
  | Role.assistant ↦ true
  | Role.tool ↦ false
]

-- The second loop: the index of the last such message, where the list begins at the index `i`.
unfoldable pub last_spoken : {J : Type 0} → ℕ → List (Message J) → Option ℕ
last_spoken i [] = none
last_spoken i (msg ∷ later) =
    let found = last_spoken (suc i) later in
    elim found [ some j ↦ some j | none ↦ if is_spoken msg then some i else none ]

abbrev pub keep_spoken : ℕ → Option ℕ → ℕ
keep_spoken cut none = cut
keep_spoken cut (some i) = min cut i

unfoldable pub find_tail_cut : (L : JsonLib) → ContextCompressor → List (Message L.Json) → ℕ → ℕ
unfolding soft_loop last_spoken
find_tail_cut L c messages head_end =
    let n = length messages in
    let available = n - head_end - 1 in
    let min_tail = min (min c.protect_last_n (max 3 available)) available in
    let soft_ceiling = max 1 (c.tail_token_budget * 3 / 2) in
    let rest = drop head_end messages in
    let fallback_cut = n - min_tail in
    let soft = min (soft_loop L soft_ceiling min_tail n head_end rest).1 fallback_cut in
    let cut = if leb soft head_end then max fallback_cut (suc head_end) else soft in
    let kept = keep_spoken cut (last_spoken head_end rest) in
    if leb n (suc head_end) then n else max kept (suc head_end)
