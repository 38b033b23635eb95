-- ===== src/Agent/Steps/CollectResults.antt =====
-- src/agent/steps/CollectResultsStep.h
use embedded_agent.Base.{Bytes, none, some, List, [], ◌∷◌, ◌++◌}
use embedded_agent.Core.Error.{ok, returned}
use embedded_agent.Core.Types.{Message, Role, ToolCall, ToolResult}
use embedded_agent.Agent.TurnContext.{TurnContext, Step}

-- `Message{Role::Tool, output, name, nullopt, id}`
abbrev pub tool_message : {J : Type 0} → ToolResult → Bytes → Bytes → Message J
tool_message result tool_name call_id = record {
  role = Role.tool;
  content = result.output;
  name = some tool_name;
  tool_calls = none;
  tool_call_id = some call_id;
  mode = [];
  plan_file = [];
}

-- The messages of the results, each with the name and the id of the call at its place.
unfoldable pub result_messages :
    {J : Type 0} → List ToolResult → List (ToolCall J) → List (Message J)
result_messages [] calls = []
result_messages (r ∷ rs) [] = tool_message r [] [] ∷ result_messages rs []
result_messages (r ∷ rs) (c ∷ calls) = tool_message r c.name c.id ∷ result_messages rs calls

-- A message goes to the callback, or else to the history.
unfoldable pub append_message :
    {J S : Type 0} → TurnContext J S → Message J → List (Message J) → S → List (Message J) × S
append_message ctx m messages s = elim ctx.append_message_fn [
  | none ↦ (messages ++ m ∷ [], s)
  | some append ↦ append m messages s
]

unfoldable pub append_all :
    {J S : Type 0}
    → TurnContext J S
    → List (Message J)
    → List (Message J)
    → S
    → List (Message J) × S
unfolding append_message
append_all ctx [] messages s = (messages, s)
append_all ctx (m ∷ ms) messages s =
    let (more, t) = append_message ctx m messages s in append_all ctx ms more t

unfoldable pub execute : {J S : Type 0} → Step J S
unfolding append_all result_messages
execute ctx s =
    let (messages, t) =
      append_all ctx (result_messages ctx.tool_results ctx.pending_tool_calls) ctx.messages s in
    (
      returned (ok tt),
      record ctx { messages = messages; pending_tool_calls = []; tool_results = [] },
      t,
    )
