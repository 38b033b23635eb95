-- ===== src/Agent/Steps/BuildToolSpecs.antt =====
-- src/agent/steps/BuildToolSpecsStep.h
use embedded_agent.Base.{
  Bytes, Bool, false, not, ◌||◌, none, some, List, ◌++◌, codes, bytes_eq, keep, if◌then◌else◌,
}
use embedded_agent.Core.Error.{ok, returned}
use embedded_agent.Core.Types.{ToolSpec}
use embedded_agent.Tool.Registry.{ToolRegistry, active_specs, find}
use embedded_agent.Agent.PermissionMode.{is_plan}
use embedded_agent.Agent.TurnContext.{TurnContext, Step}

module _ {J S : Type 0} where
  -- Is a tool of this name shown in the plan mode?
  unfoldable pub visible_in_plan : ToolRegistry J S → Bytes → Bool
  visible_in_plan r name = elim (find r name) [
    | none ↦ false
    | some tool ↦
        not tool.is_mutating || bytes_eq name (codes "file") || bytes_eq name (codes "plan_exit")
  ]

  unfoldable pub specs_for : TurnContext J S → ToolRegistry J S → S → List (ToolSpec J)
  unfolding visible_in_plan
  specs_for ctx r s =
      if is_plan ctx.permission_mode
      then keep (λ spec. visible_in_plan r spec.name) (active_specs r s)
      else keep (λ spec. not (bytes_eq spec.name (codes "plan_exit"))) (active_specs r s)

  unfoldable pub execute : Step J S
  unfolding specs_for
  execute ctx s = elim ctx.registry [
    | none ↦ (returned (ok tt), ctx, s)
    | some r ↦
        (returned (ok tt), record ctx { tool_specs = ctx.tool_specs ++ specs_for ctx r s }, s)
  ]
