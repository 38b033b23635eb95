-- ===== src/Agent/Steps/ExecuteTools/PlanMode.antt =====
-- What the plan mode keeps.
use embedded_agent.Base.{
  ap, if◌then◌else◌, ◌≡◌, refl, inl, inr, Bytes, Option, true, false, none, some, List, [], ◌∷◌,
  ◌++◌, is_empty, Bool-cases, Option-cases,
}
use embedded_agent.Core.Error.{◌>>=◌, Outcome-cases, Result-cases, returned}
use embedded_agent.Core.Json.{JsonLib}
use embedded_agent.Core.Types.{ToolCall}
use embedded_agent.Security.Policy.{SecurityPolicy, check_tool}
use embedded_agent.Tool.Interface.{Tool}
use embedded_agent.Tool.Registry
use embedded_agent.Tool.Registry.{ToolRegistry, find}
use embedded_agent.Agent.PermissionMode.{PermissionMode, is_plan}
use embedded_agent.Agent.TurnContext.{TurnContext, AgentEvent}
use embedded_agent.Agent.Steps.ExecuteTools.{
  Approval, execute_call, execute_calls, execute, emit, to_result, tool_result, guard_and_run,
  ask_and_run, run_tool,
}
use embedded_agent.Agent.Steps.ExecuteTools.Guards.{
  is_file_write, call_is_mutating, plan_mode_allows, needs_approval, is_plan_file_write,
}
use embedded_agent.Agent.Steps.ExecuteTools.Counts.{
  CallEnd-cases, execute_calls-answered, execute_calls-stopped, execute_calls-threw,
}

module _ (L : JsonLib) {S : Type 0} (Kept : S → Type 0) (normalize : S → Bytes → Bytes)
    (policy : Option SecurityPolicy) (approval : Approval L.Json S)
    (r : ToolRegistry L.Json S) where
  -- The events that the context emits keep `Kept`.
  abbrev pub EmitKeeps : TurnContext L.Json S → Type 0
  EmitKeeps ctx =
      (f : AgentEvent L.Json → S → S)
      → ctx.emit_fn ≡ some f
      → (event : AgentEvent L.Json) (s : S) → Kept s
      → Kept (f event s)

  -- A call that `plan_mode_allows` lets pass keeps `Kept` when the registry runs it.
  abbrev pub AllowedKeeps : TurnContext L.Json S → Type 0
  AllowedKeeps ctx =
      (tc : ToolCall L.Json) (s t : S)
      → plan_mode_allows L (normalize s) ctx tc (find r tc.name) ≡ returned true
      → Kept t
      → Kept (Registry.execute r tc.name tc.arguments t).1

  emit-Kept :
      (ctx : TurnContext L.Json S) (event : AgentEvent L.Json) (s : S)
      → EmitKeeps ctx
      → Kept s
      → Kept (emit L ctx event s)
  emit-Kept ctx event s h k = elim (Option-cases ctx.emit_fn) [
    | inl e ↦ rw (e) k
    | inr (f, e) ↦ rw (e) (h f e event s k)
  ]

  run_tool-Kept :
      (ctx : TurnContext L.Json S) (tc : ToolCall L.Json) (s : S)
      → EmitKeeps ctx
      → ((t : S) → Kept t → Kept (Registry.execute r tc.name tc.arguments t).1)
      → Kept s
      → Kept (run_tool L ctx r tc s).1
  unfolding run_tool
  run_tool-Kept ctx tc s h run k =
      let start = AgentEvent.tool_call_start ctx.iteration ctx.agent_id tc.name tc.arguments in
      let started = emit L ctx start s in
      let ran = run started (emit-Kept ctx start s h k) in
      elim (Outcome-cases (Registry.execute r tc.name tc.arguments started).0) [
        | inl (result, e) ↦
            let shown = to_result L ctx tc (tool_result tc result) in
            rw (e, run_tool)
              (emit-Kept ctx
                (AgentEvent.tool_call_end ctx.iteration ctx.agent_id tc.name shown.output
                  shown.is_error)
                (Registry.execute r tc.name tc.arguments started).1 h ran)
        | inr e ↦ rw (e, run_tool) ran
      ]

  ask_and_run-Kept :
      (asks : Approval L.Json S) (ctx : TurnContext L.Json S) (tc : ToolCall L.Json) (s : S)
      → Kept (run_tool L ctx r tc s).1
      → Kept (ask_and_run L asks ctx r tc false s).1
  unfolding ask_and_run
  ask_and_run-Kept none ctx tc s k = k
  ask_and_run-Kept (some a) ctx tc s k = k

  needs_approval-plan :
      (ctx : TurnContext L.Json S) (tc : ToolCall L.Json) (found : Option (Tool L.Json S))
      → ctx.permission_mode ≡ PermissionMode.plan
      → needs_approval L ctx tc found ≡ returned false
  unfolding needs_approval
  needs_approval-plan ctx tc found m =
      ap
        (λ mode. elim mode [
          | PermissionMode.manual ↦ call_is_mutating L tc found
          | PermissionMode.accept_edits ↦
              is_file_write L tc
              >>= (λ writes. if writes then returned false else call_is_mutating L tc found)
          | PermissionMode.plan ↦ returned false
          | PermissionMode.bypass_permissions ↦ returned false
        ])
        m

  guard_and_run-Kept :
      (ctx : TurnContext L.Json S) (tc : ToolCall L.Json) (s : S)
      → ctx.permission_mode ≡ PermissionMode.plan
      → EmitKeeps ctx
      → AllowedKeeps ctx
      → Kept s
      → Kept (guard_and_run L normalize approval ctx r tc s).1
  unfolding guard_and_run
  guard_and_run-Kept ctx tc s m h run k =
      elim (Outcome-cases (plan_mode_allows L (normalize s) ctx tc (find r tc.name))) [
        | inr e ↦ rw (guard_and_run, ap is_plan m, e) k
        | inl (b, e) ↦ elim (Bool-cases b) [
          | inl t ↦
              rw (guard_and_run, ap is_plan m, e, t, needs_approval-plan ctx tc (find r tc.name) m)
                (ask_and_run-Kept approval ctx tc s
                  (run_tool-Kept ctx tc s h (λ t'. run tc s t' (rw (e, t) refl)) k))
          | inr f ↦ rw (guard_and_run, ap is_plan m, e, f) k
        ]
      ]

  execute_call-Kept :
      (ctx : TurnContext L.Json S) (tc : ToolCall L.Json) (s : S)
      → ctx.permission_mode ≡ PermissionMode.plan
      → EmitKeeps ctx
      → AllowedKeeps ctx
      → Kept s
      → Kept (execute_call L normalize policy approval ctx r tc s).1
  unfolding execute_call
  execute_call-Kept ctx tc s m h run k = elim (Option-cases policy) [
    | inl e ↦ rw (e, execute_call) (guard_and_run-Kept ctx tc s m h run k)
    | inr (p, e) ↦ elim (Result-cases (check_tool p tc.name)) [
      | inl (u, q) ↦ rw (execute_call, e, q) (guard_and_run-Kept ctx tc s m h run k)
      | inr (x, q) ↦ rw (execute_call, e, q) k
    ]
  ]

  execute_calls-Kept :
      (calls : List (ToolCall L.Json)) (ctx : TurnContext L.Json S) (s : S)
      → ctx.permission_mode ≡ PermissionMode.plan
      → EmitKeeps ctx
      → AllowedKeeps ctx
      → Kept s
      → Kept (execute_calls L normalize policy approval r calls ctx s).2
  unfolding execute_calls plan_mode_allows is_plan_file_write
  execute_calls-Kept [] ctx s m h run k = k
  execute_calls-Kept (tc ∷ calls) ctx s m h run k =
      let called = execute_call L normalize policy approval ctx r tc s in
      let after = execute_call-Kept ctx tc s m h run k in
      elim (CallEnd-cases called.0) [
        | inl (result, e) ↦
            rw (execute_calls-answered L normalize policy approval r tc calls ctx s result e) (
              execute_calls-Kept calls
                (record ctx { tool_results = ctx.tool_results ++ result ∷ [] }) called.1 m h run
                after)
        | inr o ↦ elim o [
          | inl e ↦ rw (execute_calls-stopped L normalize policy approval r tc calls ctx s e) after
          | inr e ↦ rw (execute_calls-threw L normalize policy approval r tc calls ctx s e) after
        ]
      ]

  -- In the plan mode, with a registry: what is true of the outside before the step is true of it
  -- after the step, however that ends, if the emitted events keep it true and every call that
  -- `plan_mode_allows` lets pass keeps it true when the registry runs it.
  pub execute-Kept :
      (ctx : TurnContext L.Json S) (s : S)
      → ctx.permission_mode ≡ PermissionMode.plan
      → ctx.registry ≡ some r
      → EmitKeeps ctx
      → AllowedKeeps ctx
      → Kept s
      → Kept (execute L normalize policy approval ctx s).2
  unfolding execute plan_mode_allows is_plan_file_write
  execute-Kept ctx s m e h run k = elim (Bool-cases (is_empty ctx.pending_tool_calls)) [
    | inl none_left ↦ rw (execute, none_left) k
    | inr some_left ↦
        rw (execute, some_left, e)
          (execute_calls-Kept ctx.pending_tool_calls (record ctx { tool_results = [] }) s m h run k)
  ]
