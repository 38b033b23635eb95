-- ===== src/Agent/ContextCompressor/Prune.antt =====
-- `prune_old_tool_results` of src/agent/ContextCompressor.cpp: old tool results become one line each.
use embedded_agent.Base.{
  ℕ, zero, suc, ◌==◌, ◌||◌, Bytes, Bool, Option, none, some, List, [], ◌∷◌, ◌++◌, codes, em_dash,
  length, take, ltb, is_empty, any, bytes_eq, to_string, if◌then◌else◌,
}
use embedded_agent.Core.Error.{Outcome, returned, thrown}
use embedded_agent.Core.Json.{JsonLib}
use embedded_agent.Core.Types.{Message, Role, ToolCall}
use embedded_agent.Agent.ContextCompressor.{ContextCompressor, find_tail_cut, protect_head_size}

unfoldable pub truncate_args : Bytes → Bytes
truncate_args args = if ltb 500 (length args) then take 500 args ++ codes "...[truncated]" else args

-- `" \t\r\n{"`
abbrev is_opening : ℕ → Bool
is_opening c = c == 32 || c == 9 || c == 13 || c == 10 || c == b'{'

-- `",}\n"`
abbrev is_closing : ℕ → Bool
is_closing c = c == b',' || c == b'}' || c == 10

-- The text from `find_first_not_of` on; it is empty where nothing is found.
unfoldable pub from_start : Bytes → Bytes
from_start [] = []
from_start (c ∷ s) = let rest = from_start s in if is_opening c then rest else c ∷ s

-- `find_first_of`
unfoldable pub find_closing : Bytes → Option ℕ
find_closing [] = none
find_closing (c ∷ s) =
    let later = find_closing s in
    if is_closing c then some 0 else elim later [ none ↦ none | some k ↦ some (suc k) ]

unfoldable pub compact_args : Bytes → Bytes
unfolding from_start find_closing
compact_args args = elim (find_closing (from_start args)) [
  | none ↦ args
  | some k ↦ take k (from_start args)
]

unfoldable pub tool_one_liner : Bytes → Bytes → Bytes → Bytes
unfolding compact_args
tool_one_liner name args content =
    codes "["
    ++ (if is_empty name then codes "tool" else name)
    ++ codes "]"
    ++ (if is_empty (compact_args args) then [] else codes " " ++ compact_args args)
    ++ codes " ("
    ++ to_string (length content)
    ++ codes " chars)"

-- `"[Duplicate tool output - same content as a more recent call]"`, with a long dash
unfoldable pub duplicate_note : Bytes
duplicate_note =
    codes "[Duplicate tool output " ++ em_dash ++ codes " same content as a more recent call]"

abbrev name_or_tool : Option Bytes → Bytes
name_or_tool none = codes "tool"
name_or_tool (some name) = name

abbrev call_reference : Option Bytes → Bytes
call_reference none = []
call_reference (some id) = if is_empty id then [] else codes "call=" ++ id

unfoldable pub one_line : {J : Type 0} → Message J → Bytes
unfolding tool_one_liner
one_line msg = tool_one_liner (name_or_tool msg.name) (call_reference msg.tool_call_id) msg.content

-- `arguments.size()` counts elements, and a value with more than one is no string: then the
-- implicit conversion for `truncate_args` throws.
unfoldable pub prune_call : (L : JsonLib) → ToolCall L.Json → Outcome (ToolCall L.Json)
unfolding truncate_args
prune_call L tc =
    if ltb 500 (L.size tc.arguments)
    then elim (L.to_string tc.arguments) [
      | thrown ↦ thrown
      | returned args ↦ returned (record tc { arguments = L.of_string (truncate_args args) })
    ]
    else returned tc

unfoldable pub prune_calls :
    (L : JsonLib) → List (ToolCall L.Json) → Outcome (List (ToolCall L.Json))
unfolding prune_call
prune_calls L [] = returned []
prune_calls L (tc ∷ calls) = elim (prune_call L tc) [
  | thrown ↦ thrown
  | returned pruned ↦ elim (prune_calls L calls) [
    | thrown ↦ thrown
    | returned rest ↦ returned (pruned ∷ rest)
  ]
]

-- A message of the assistant with its calls pruned.
unfoldable pub with_calls :
    (L : JsonLib) → Message L.Json → Outcome (List (ToolCall L.Json)) → Outcome (Message L.Json)
with_calls L msg thrown = thrown
with_calls L msg (returned pruned) = returned (record msg { tool_calls = some pruned })

-- A message of the assistant.
unfoldable pub prune_assistant :
    (L : JsonLib) → Message L.Json → Option (List (ToolCall L.Json)) → Outcome (Message L.Json)
unfolding prune_calls with_calls
prune_assistant L msg none = returned msg
prune_assistant L msg (some calls) = with_calls L msg (prune_calls L calls)

-- The body of the loop by the role, with the keys of `seen`: the message, and the keys after it.
unfoldable pub prune_by_role :
    (L : JsonLib) → List Bytes → Message L.Json → Role → Outcome (Message L.Json × List Bytes)
unfolding one_line duplicate_note prune_assistant
prune_by_role L seen msg Role.tool =
    if ltb (length msg.content) 200
    then returned (msg, seen)
    else if any (bytes_eq (take 256 msg.content)) seen
    then returned (record msg { content = duplicate_note }, seen)
    else returned (record msg { content = one_line msg }, take 256 msg.content ∷ seen)
prune_by_role L seen msg Role.assistant = elim (prune_assistant L msg msg.tool_calls) [
  | thrown ↦ thrown
  | returned pruned ↦ returned (pruned, seen)
]
prune_by_role L seen msg Role.system = returned (msg, seen)
prune_by_role L seen msg Role.user = returned (msg, seen)

-- The body of the loop.
unfoldable pub prune_message :
    (L : JsonLib) → List Bytes → Message L.Json → Outcome (Message L.Json × List Bytes)
unfolding prune_by_role
prune_message L seen msg = prune_by_role L seen msg msg.role

-- The loop over the first `cut` messages.
unfoldable pub prune_loop :
    (L : JsonLib) → ℕ → List Bytes → List (Message L.Json) → Outcome (List (Message L.Json))
unfolding prune_message
prune_loop L zero seen messages = returned messages
prune_loop L (suc cut) seen [] = returned []
prune_loop L (suc cut) seen (msg ∷ messages) = elim (prune_message L seen msg) [
  | thrown ↦ thrown
  | returned p ↦ elim (prune_loop L cut p.1 messages) [
    | thrown ↦ thrown
    | returned rest ↦ returned (p.0 ∷ rest)
  ]
]

unfoldable pub prune_old_tool_results :
    (L : JsonLib) → ContextCompressor → List (Message L.Json) → Outcome (List (Message L.Json))
unfolding prune_loop
prune_old_tool_results L c messages =
    prune_loop L (find_tail_cut L c messages (protect_head_size c messages)) [] messages
