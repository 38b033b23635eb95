-- ===== src/Agent/Steps/ExecuteTools/Guards.antt =====
-- The helpers of src/agent/steps/ExecuteToolsStep.cpp that decide which calls may run. The JSON access
-- `value` may throw, and so do they. `normalize` stands for `std::filesystem::weakly_canonical` in the
-- present state of the file system, or the path itself where that throws.
use embedded_agent.Base.{
  Bytes, Bool, true, false, not, ◌||◌, Option, none, some, codes, bytes_eq, is_empty, if◌then◌else◌,
}
use embedded_agent.Core.Error.{Outcome, returned, ◌>>=◌}
use embedded_agent.Core.Json.{JsonLib}
use embedded_agent.Core.Types.{ToolCall}
use embedded_agent.Tool.Interface.{Tool}
use embedded_agent.Agent.PermissionMode.{PermissionMode}
use embedded_agent.Agent.TurnContext.{TurnContext}

module _ (L : JsonLib) where
  abbrev action_of : ToolCall L.Json → Outcome Bytes
  action_of tc = L.value_string tc.arguments (codes "action") (codes "")

  abbrev is_write : Bytes → Bool
  is_write action = bytes_eq action (codes "write") || bytes_eq action (codes "edit")

  unfoldable pub is_file_write : ToolCall L.Json → Outcome Bool
  is_file_write tc =
      if bytes_eq tc.name (codes "file")
      then action_of tc >>= (λ action. returned (is_write action))
      else returned false

  unfoldable pub is_plan_file_write :
      {S : Type 0} → (Bytes → Bytes) → TurnContext L.Json S → ToolCall L.Json → Outcome Bool
  is_plan_file_write normalize ctx tc =
      if not (bytes_eq tc.name (codes "file")) || is_empty ctx.plan_file
      then returned false
      else action_of tc >>= (λ action.
        if is_write action
        then L.value_string tc.arguments (codes "path") (codes "")
          >>= (λ path. returned (bytes_eq (normalize path) (normalize ctx.plan_file)))
        else returned false)

  unfoldable pub plan_mode_allows :
      {S : Type 0}
      → (Bytes → Bytes)
      → TurnContext L.Json S
      → ToolCall L.Json
      → Option (Tool L.Json S)
      → Outcome Bool
  plan_mode_allows normalize ctx tc found =
      if bytes_eq tc.name (codes "plan_exit") then returned true else elim found [
        | none ↦ returned false
        | some tool ↦
            if not tool.is_mutating
            then returned true
            else if bytes_eq tc.name (codes "file")
            then action_of tc >>= (λ action.
              if bytes_eq action (codes "read")
              then returned true
              else is_plan_file_write normalize ctx tc)
            else returned false
      ]

  unfoldable pub call_is_mutating :
      {S : Type 0} → ToolCall L.Json → Option (Tool L.Json S) → Outcome Bool
  call_is_mutating tc none = returned true
  call_is_mutating tc (some tool) =
      if bytes_eq tc.name (codes "file") then is_file_write tc else returned tool.is_mutating

  unfoldable pub needs_approval :
      {S : Type 0} → TurnContext L.Json S → ToolCall L.Json → Option (Tool L.Json S) → Outcome Bool
  unfolding call_is_mutating
  needs_approval ctx tc found = elim ctx.permission_mode [
    | PermissionMode.manual ↦ call_is_mutating tc found
    | PermissionMode.accept_edits ↦
        is_file_write tc
        >>= (λ writes. if writes then returned false else call_is_mutating tc found)
    | PermissionMode.plan ↦ returned false
    | PermissionMode.bypass_permissions ↦ returned false
  ]
