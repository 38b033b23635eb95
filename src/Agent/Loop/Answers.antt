-- ===== src/Agent/Loop/Answers.antt =====
-- src/agent/steps: what the last three of the default steps make of the tool calls of a turn.
pub mod ChainEnds
mod Tests
use embedded_agent.Base.{
  ◌≡◌, ◌⊎◌, Bool-cases, true, false, some, List, [], ◌∷◌, ◌++◌, codes, length, map, any, is_empty,
}
use embedded_agent.Core.Error.{
  Error, ErrorCode, error_of, Result, ok, err, Result-cases, Outcome, Outcome-cases, returned,
  thrown,
}
use embedded_agent.Core.Json.{JsonLib}
use embedded_agent.Core.Types.{ToolCall, ToolResult, Message, Role, plain_message}
use embedded_agent.Agent.LoopDetector.{LoopDetector}
use embedded_agent.Agent.TurnContext.{TurnContext, Step}
use embedded_agent.Agent.Steps.ExecuteTools
use embedded_agent.Agent.Steps.LoopDetect
use embedded_agent.Agent.Steps.Loops.{actions, is_block, is_break}
use embedded_agent.Agent.Steps.CollectResults
use embedded_agent.Agent.Loop.Run.{World}

-- The history has grown by one message for each call, in order: a message of the role tool, under the
-- call's id and name, with the output of the call's result.
abbrev pub Grown :
    {J : Type 0}
    → List (ToolCall J)
    → List ToolResult
    → List (Message J)
    → List (Message J)
    → Type 0
Grown calls results before after =
    (ms : List (Message _)) × (after ≡ before ++ ms)
    × (map (λ m. m.role) ms ≡ map (λ c. Role.tool) calls)
    × (map (λ m. m.tool_call_id) ms ≡ map (λ c. some c.id) calls)
    × (map (λ m. m.name) ms ≡ map (λ c. some c.name) calls)
    × (map (λ m. m.content) ms ≡ map (λ r. r.output) results)
    × (length results ≡ length calls)

module _ {J S : Type 0} where
  -- The callback for messages puts them at the end of the history.
  abbrev pub AppendsTo : (Message J → List (Message J) → S → List (Message J) × S) → Type 0
  AppendsTo append =
      (m : Message J) (messages : List (Message J)) (s : S)
      → (append m messages s).0 ≡ messages ++ m ∷ []

-- The note on a repeated call.
abbrev pub loop_note : {J : Type 0} → Message J
loop_note =
    plain_message Role.system
      (codes "[System: Repeated identical tool call detected. Breaking loop.]")

-- The type of the callback for messages.
abbrev Append : Type 0 → Type 0 → Type 0
Append J W = Message J → List (Message J) → W → List (Message J) × W

module _ (L : JsonLib) {S : Type 0} where
  -- What the turn leaves where `detector` is asked about the calls and the results: no call, and either
  -- the note, where the detector blocks one and breaks at none, or the messages of the results.
  abbrev pub IsAnswered :
      LoopDetector
      → List ToolResult
      → TurnContext L.Json (World L.Json S)
      → TurnContext L.Json (World L.Json S)
      → Type 0
  IsAnswered detector results before end =
      let answers = actions L detector before.pending_tool_calls results in
      (end.pending_tool_calls ≡ [])
      × (((any is_block answers ≡ true) × (end.messages ≡ before.messages ++ loop_note ∷ []))
          ⊎ ((any is_block answers ≡ false)
              × Grown before.pending_tool_calls results before.messages end.messages))

  -- A turn `after` that still has the calls and the messages of `before`, and as many results.
  record IsRun (append : Append L.Json (World L.Json S))
      (before after : TurnContext L.Json (World L.Json S)) : Type 0 where
    some_calls : is_empty before.pending_tool_calls ≡ false
    pending : after.pending_tool_calls ≡ before.pending_tool_calls
    messages : after.messages ≡ before.messages
    set : after.append_message_fn ≡ some append
    appends : AppendsTo append
    count : length after.tool_results ≡ length before.pending_tool_calls

  module _ (append : Append L.Json (World L.Json S))
      (before after : TurnContext L.Json (World L.Json S)) (d : LoopDetector)
      (h : IsRun append before after) where
    abbrev Q : TurnContext L.Json (World L.Json S) → Type 0
    Q = IsAnswered d after.tool_results before
