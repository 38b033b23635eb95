-- ===== src/Agent/PlanExitTool.antt =====
-- src/agent/PlanExitTool.cpp and `PermissionState` of src/agent/PermissionMode.h: the way out of the plan
-- mode.
pub mod Handoff
mod Tests
use embedded_agent.Base.{
  Bytes, Bool, true, false, not, Option, none, some, codes, em_dash, [], ◌++◌, if◌then◌else◌,
}
use embedded_agent.Core.Types.{ToolResult}
use embedded_agent.Security.Approval.{ApprovalRequest, ApprovalDecision}
use embedded_agent.Agent.PermissionMode.{PermissionMode, is_plan}

pub record PermissionState : Type 0 where
  pub mode : PermissionMode
  pub previous : PermissionMode
  pub exit_approved : Bool
  pub plan_file : Bytes

-- The approval handler may wait for the user, who may change the shared state meanwhile.
abbrev pub Approval : Type 0 → Type 0 → Type 0
Approval J S =
    Option (ApprovalRequest J → PermissionState → S → ApprovalDecision × PermissionState × S)

-- `null_json` is a `json` that was given no value.
abbrev pub request : {J : Type 0} → J → ApprovalRequest J
request null_json = record {
  tool_name = codes "plan_exit";
  arguments = null_json;
  description = codes "Planning is complete. Leave plan mode and start implementing the plan?";
}

abbrev pub said : Bytes → Bool → ToolResult
said text is_error = record { call_id = []; output = text; is_error = is_error }

-- `approval_ ? approval_->request_approval(req) : Approved`
unfoldable pub ask :
    {J S : Type 0} → Approval J S → J → PermissionState → S → ApprovalDecision × PermissionState × S
ask none null_json state s = (ApprovalDecision.approved, state, s)
ask (some approval) null_json state s = approval (request null_json) state s

abbrev pub restored_mode : PermissionMode → PermissionMode
restored_mode previous = if is_plan previous then PermissionMode.manual else previous

unfoldable pub answer : ApprovalDecision → PermissionState → ToolResult × PermissionState
answer ApprovalDecision.approved state = (
  said (codes "Plan approved. Left plan mode to implement the plan.") false,
  record state { mode = restored_mode state.previous; exit_approved = true },
)
answer ApprovalDecision.aborted state = (said (codes "Plan approval aborted.") true, state)
answer ApprovalDecision.rejected state =
    (said (codes "User chose to continue planning. Keep refining the plan.") false, state)

abbrev pub not_planning : Bytes
not_planning =
    codes "Not in plan mode " ++ em_dash ++ codes " plan_exit is only available while planning."

-- A null `state_` is `none`.
unfoldable pub execute :
    {J S : Type 0}
    → Approval J S
    → J
    → Option PermissionState
    → S
    → ToolResult × Option PermissionState × S
unfolding ask answer
execute approval null_json none s = (said not_planning true, none, s)
execute approval null_json (some state) s =
    if not (is_plan state.mode)
    then (said not_planning true, some state, s)
    else let (decision, asked, t) = ask approval null_json state s in
      ((answer decision asked).0, some (answer decision asked).1, t)
