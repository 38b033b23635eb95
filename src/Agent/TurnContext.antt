-- ===== src/Agent/TurnContext.antt =====
-- src/agent/TurnContext.h and ITurnStep.h. `S` is the state of everything outside: files, processes,
-- the user, and the objects that callbacks and tools change.
use embedded_agent.Base.{ℕ, Bytes, Bool, Option, List, [], ◌∷◌, codes, if◌then◌else◌}
use embedded_agent.Core.Error.{Result, ok, err, error_of, ErrorCode, Outcome, returned, thrown}
use embedded_agent.Core.Types.{
  Message, ToolCall, ToolResult, ToolSpec, LlmResponse, StreamChunk, Usage,
}
use embedded_agent.Provider.Interface.{Provider}
use embedded_agent.Tool.Registry.{ToolRegistry}
use embedded_agent.Agent.PermissionMode.{PermissionMode}

-- The events that the steps and the loop emit, without the id of the trace and the costs.
pub data AgentEvent (J : Type 0) : Type 0 where
  -- iteration, agent id, tool name, arguments
  tool_call_start : ℕ → Bytes → Bytes → J → AgentEvent J
  -- iteration, agent id, tool name, output, error flag
  tool_call_end : ℕ → Bytes → Bytes → Bytes → Bool → AgentEvent J
  -- iteration, agent id, model, the role's word and the content of each message (the source emits
  -- them as JSON)
  llm_request : ℕ → Bytes → Bytes → List (Bytes × Bytes) → AgentEvent J
  -- iteration, agent id, model, content, usage, number of tool calls
  llm_response : ℕ → Bytes → Bytes → Bytes → Usage → ℕ → AgentEvent J
  -- iteration, agent id, the last text of the user
  turn_start : ℕ → Bytes → Bytes → AgentEvent J
  -- iteration, agent id, the content of the answer
  turn_end : ℕ → Bytes → Bytes → AgentEvent J
  interrupt : AgentEvent J
  -- iteration, agent id, message
  error : ℕ → Bytes → Bytes → AgentEvent J
  mode_changed : Bytes → AgentEvent J

-- `messages` is shared with the loop that owns the history: `append_message_fn` gets it and may
-- change it. `max_iterations` and `budget_tracker`, which no step reads, are left out.
pub record TurnContext (J S : Type 0) : Type 0 where
  pub messages : List (Message J)
  pub pending_tool_calls : List (ToolCall J)
  pub tool_results : List ToolResult
  pub tool_specs : List (ToolSpec J)
  pub response : LlmResponse J
  pub iteration : ℕ
  pub max_tool_output_bytes : ℕ
  pub should_stop : Bool
  pub interrupted : S → Bool
  pub registry : Option (ToolRegistry J S)
  pub permission_mode : PermissionMode
  pub plan_file : Bytes
  pub agent_id : Bytes
  pub emit_fn : Option (AgentEvent J → S → S)
  pub provider : Option (Provider J S)
  pub system_prompt : Bytes
  pub model : Bytes
  pub max_tokens : ℕ
  pub stream_callback : Option (StreamChunk J → S → S)
  pub compression_applied : Bool
  pub append_message_fn : Option (Message J → List (Message J) → S → List (Message J) × S)

-- What `execute` of a step does to the context and the outside.
abbrev pub Step : Type 0 → Type 0 → Type 0
Step J S = TurnContext J S → S → Outcome (Result (Unit {0})) × TurnContext J S × S

-- `run_step_chain`
unfoldable pub run_step_chain : {J S : Type 0} → List (Step J S) → Step J S
run_step_chain [] ctx s = (returned (ok tt), ctx, s)
run_step_chain (step ∷ steps) ctx s =
    if ctx.interrupted s
    then (returned (err (error_of ErrorCode.timeout (codes "agent loop interrupted"))), ctx, s)
    else if ctx.should_stop
    then (returned (ok tt), ctx, s)
    else let (outcome, after, t) = step ctx s in
      elim outcome [
        | thrown ↦ (thrown, after, t)
        | returned r ↦ elim r [
          | err e ↦ (returned (err e), after, t)
          | ok u ↦ run_step_chain steps after t
        ]
      ]
