-- ===== src/Agent/Steps/ExecuteTools.antt =====
-- src/agent/steps/ExecuteToolsStep.cpp: the tool calls of a turn, behind the security policy, the guard
-- of the plan mode and the user's approval.
pub mod Guards
pub mod Counts
pub mod PlanMode
use embedded_agent.Base.{
  ℕ, Bytes, Bool, true, false, not, ◌&&◌, Option, none, some, List, [], ◌∷◌, ◌++◌, codes, is_empty,
  if◌then◌else◌,
}
use embedded_agent.Core.Error.{
  Error, Result, ok, err, error_of, ErrorCode, Outcome, returned, thrown,
}
use embedded_agent.Core.Json.{JsonLib}
use embedded_agent.Core.Types.{ToolCall, ToolResult}
use embedded_agent.Security.Policy.{SecurityPolicy, check_tool}
use embedded_agent.Security.Approval.{ApprovalRequest, ApprovalDecision}
use embedded_agent.Tool.Output.{ToolOutputConfig, default_marker, get_limit, truncate_output}
use embedded_agent.Tool.Registry
use embedded_agent.Tool.Registry.{ToolRegistry, find}
use embedded_agent.Agent.PermissionMode.{PermissionMode, permission_mode_name, is_plan}
use embedded_agent.Agent.TurnContext.{TurnContext, AgentEvent}
use embedded_agent.Agent.Steps.ExecuteTools.Guards.{plan_mode_allows, needs_approval}

-- How one pass of the loop over the calls ends: with a result for the call, with the loop aborted by
-- the user, or with an exception.
pub data CallEnd : Type 0 where
  answered : ToolResult → CallEnd
  stopped : CallEnd
  threw : CallEnd

abbrev pub refusal : Bytes → Bytes → CallEnd
refusal id text = answered (record { call_id = id; output = text; is_error = true })

-- The step's `approval_`.
abbrev pub Approval : Type 0 → Type 0 → Type 0
Approval J S = Option (ApprovalRequest J → S → ApprovalDecision × S)

-- The result that a call of the registry's `execute` gives.
unfoldable pub tool_result : {J : Type 0} → ToolCall J → Result ToolResult → ToolResult
tool_result tc (ok r) = r
tool_result tc (err e) = record {
  call_id = tc.id;
  output = codes "Error: " ++ e.message;
  is_error = true;
}

module _ (L : JsonLib) {S : Type 0} where
  abbrev pub emit : TurnContext L.Json S → AgentEvent L.Json → S → S
  emit ctx event s = elim ctx.emit_fn [ none ↦ s | some f ↦ f event s ]

  unfoldable pub output_config : TurnContext L.Json S → ToolOutputConfig
  output_config ctx = record {
    max_bytes = ctx.max_tool_output_bytes;
    per_tool = [];
    truncate_marker = default_marker;
  }

  unfoldable pub to_result : TurnContext L.Json S → ToolCall L.Json → ToolResult → ToolResult
  unfolding output_config
  to_result ctx tc result = record result {
    output = truncate_output result.output (get_limit (output_config ctx) tc.name) default_marker;
  }

  unfoldable pub run_tool :
      TurnContext L.Json S → ToolRegistry L.Json S → ToolCall L.Json → S → CallEnd × S
  unfolding to_result tool_result
  run_tool ctx r tc s =
      let started =
        emit ctx (AgentEvent.tool_call_start ctx.iteration ctx.agent_id tc.name tc.arguments) s in
      let (outcome, t) = Registry.execute r tc.name tc.arguments started in
      elim outcome [
        | thrown ↦ (threw, t)
        | returned result ↦
            let shown = to_result ctx tc (tool_result tc result) in
            (
              answered shown,
              emit ctx
                  (AgentEvent.tool_call_end ctx.iteration ctx.agent_id tc.name shown.output
                    shown.is_error)
                  t,
            )
      ]

  abbrev request_for : TurnContext L.Json S → ToolCall L.Json → ApprovalRequest L.Json
  request_for ctx tc = record {
    tool_name = tc.name;
    arguments = tc.arguments;
    description =
        codes "Tool '"
        ++ tc.name
        ++ codes "' requires approval in mode "
        ++ permission_mode_name ctx.permission_mode;
  }

  -- The approval soft check, and what follows it.
  unfoldable pub ask_and_run :
      Approval L.Json S
      → TurnContext L.Json S
      → ToolRegistry L.Json S
      → ToolCall L.Json
      → Bool
      → S
      → CallEnd × S
  unfolding run_tool
  ask_and_run none ctx r tc needed s = run_tool ctx r tc s
  ask_and_run (some approval) ctx r tc false s = run_tool ctx r tc s
  ask_and_run (some approval) ctx r tc true s =
      let (decision, t) = approval (request_for ctx tc) s in
      elim decision [
        | ApprovalDecision.approved ↦ run_tool ctx r tc t
        | ApprovalDecision.rejected ↦ (refusal tc.id (codes "User rejected this tool call"), t)
        | ApprovalDecision.aborted ↦ (stopped, t)
      ]

  unfoldable pub guard_and_run :
      (S → Bytes → Bytes)
      → Approval L.Json S
      → TurnContext L.Json S
      → ToolRegistry L.Json S
      → ToolCall L.Json
      → S
      → CallEnd × S
  unfolding ask_and_run
  guard_and_run normalize approval ctx r tc s =
      let tool = find r tc.name in
      let allowed =
        if is_plan ctx.permission_mode
        then plan_mode_allows L (normalize s) ctx tc tool
        else returned true in
      elim allowed [
        | thrown ↦ (threw, s)
        | returned b ↦
            if b
            then elim (needs_approval L ctx tc tool) [
              | thrown ↦ (threw, s)
              | returned needed ↦ ask_and_run approval ctx r tc needed s
            ]
            else (
              refusal tc.id (
                  codes
                    "Blocked in plan mode: read-only tools only (plan file writes are allowed)."),
              s,
            )
      ]

  -- The body of the loop.
  unfoldable pub execute_call :
      (S → Bytes → Bytes)
      → Option SecurityPolicy
      → Approval L.Json S
      → TurnContext L.Json S
      → ToolRegistry L.Json S
      → ToolCall L.Json
      → S
      → CallEnd × S
  unfolding guard_and_run
  execute_call normalize policy approval ctx r tc s = elim policy [
    | none ↦ guard_and_run normalize approval ctx r tc s
    | some p ↦ elim (check_tool p tc.name) [
      | ok u ↦ guard_and_run normalize approval ctx r tc s
      | err e ↦ (refusal tc.id (codes "Blocked by security policy: " ++ e.message), s)
    ]
  ]

  -- The loop, which adds to `tool_results`.
  unfoldable pub execute_calls :
      (S → Bytes → Bytes)
      → Option SecurityPolicy
      → Approval L.Json S
      → ToolRegistry L.Json S
      → List (ToolCall L.Json)
      → TurnContext L.Json S
      → S
      → Outcome (Result (Unit {0})) × TurnContext L.Json S × S
  unfolding execute_call
  execute_calls normalize policy approval r [] ctx s = (returned (ok tt), ctx, s)
  execute_calls normalize policy approval r (tc ∷ calls) ctx s =
      let (end, t) = execute_call normalize policy approval ctx r tc s in
      elim end [
        | answered result ↦
            execute_calls normalize policy approval r calls
              (record ctx { tool_results = ctx.tool_results ++ result ∷ [] }) t
        | stopped ↦ (returned (ok tt), record ctx { should_stop = true }, t)
        | threw ↦ (thrown, ctx, t)
      ]

  unfoldable pub execute :
      (S → Bytes → Bytes)
      → Option SecurityPolicy
      → Approval L.Json S
      → TurnContext L.Json S
      → S
      → Outcome (Result (Unit {0})) × TurnContext L.Json S × S
  unfolding execute_calls
  execute normalize policy approval ctx s =
      if is_empty ctx.pending_tool_calls then (returned (ok tt), ctx, s) else elim ctx.registry [
        | none ↦ (
          returned
              (err (error_of ErrorCode.invalid_argument (codes "No tool registry configured"))),
          ctx,
          s,
        )
        | some r ↦
            execute_calls normalize policy approval r ctx.pending_tool_calls
              (record ctx { tool_results = [] }) s
      ]
